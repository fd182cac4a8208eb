-- ===== src/Util/Unique.antt =====
-- `trim` of util.c is determined by what stands between the blanks.
use stonesh.Prelude.{
  ℕ, zero, suc, ◌≤◌, true, [], ◌∷◌, ◌++◌, append_assoc, append-nil, ◌≡◌, ◌↔◌, refl, sym, ap, ◌∙◌,
  subst, arith, Bytes, length, length-append, get_or, take, take_while, All-append,
}
use stonesh.Libc.{is_space}
use stonesh.Util.{strip_end, strip_start, trim}
use stonesh.Util.Trim.{
  IsCStr, IsBlank, NoMark, IsComment, IsTrimmed, EndsClean, Trims, trim-Trims, EndsClean-append,
  trim-finish, finish, no_hash, take_all, get_or_last,
}

blank-NoMark : (s : Bytes) → IsBlank s → NoMark s
unfolding is_space
blank-NoMark [] h = tt
blank-NoMark (c ∷ s) (h, hs) = (ground arith, blank-NoMark s hs)

take_while-comment :
    (s comment : Bytes) → NoMark s → IsComment comment → take_while no_hash (s ++ comment) ≡ s
take_while-comment [] [] h k = refl
take_while-comment [] (c ∷ comment) h k = ground arith
take_while-comment (c ∷ s) comment (h, hs) k = ground (arith, take_while-comment s comment hs k)

take-append : (l : ℕ) (p q : Bytes) → l ≤ length p → take l (p ++ q) ≡ take l p
take-append zero p q h = refl
take-append (suc l) [] q h = absurd (omega arith)
take-append (suc l) (c ∷ p) q h = ap (◌∷◌ c) (take-append l p q (omega arith))

get_or-append : (l : ℕ) (p q : Bytes) → suc l ≤ length p → get_or (p ++ q) l 0 ≡ get_or p l 0
get_or-append l [] q h = absurd (omega arith)
get_or-append zero (c ∷ p) q h = refl
get_or-append (suc l) (c ∷ p) q h = get_or-append l p q (omega arith)

strip_end-append : (l : ℕ) (p q : Bytes) → l ≤ length p → strip_end l (p ++ q) ≡ strip_end l p
unfolding strip_end
strip_end-append zero p q h = refl
strip_end-append (suc l) p q h =
    rw (get_or-append l p q h, take-append (suc l) p q h, strip_end-append l p q (omega arith))

get_or_end : (p : Bytes) (c : ℕ) → get_or (p ++ c ∷ []) (length p) 0 ≡ c
get_or_end [] c = refl
get_or_end (d ∷ p) c = get_or_end p c

-- A blank at the end is dropped.
strip_end_blank :
    (p : Bytes) (c : ℕ)
    → is_space c ≡ true
    → strip_end (suc (length p)) (p ++ c ∷ []) ≡ strip_end (length p) p
strip_end_blank p c h =
    unfold strip_end in
    rw (get_or_end p c) (rw h (strip_end-append (length p) p (c ∷ []) (omega arith)))

strip_end-trail :
    (trail p : Bytes)
    → IsBlank trail
    → strip_end (length (p ++ trail)) (p ++ trail) ≡ strip_end (length p) p
strip_end-trail [] p h = rw append-nil
strip_end-trail (c ∷ trail) p (h, hs) =
    ap (λ s. strip_end (length s) s) (sym (append_assoc p (c ∷ []) trail))
    ∙ strip_end-trail trail (p ++ c ∷ []) hs
    ∙ ap (λ n. strip_end n (p ++ c ∷ [])) (length_end p)
    ∙ strip_end_blank p c h
  where
    length_end : (s : Bytes) → length (s ++ c ∷ []) ≡ suc (length s)
    length_end s = omega (arith, length-append s (c ∷ []))

strip_end-clean :
    (c : ℕ) (s : Bytes) → EndsClean (c ∷ s) → strip_end (length (c ∷ s)) (c ∷ s) ≡ c ∷ s
unfolding strip_end
strip_end-clean c s h = rw (get_or_last c s h, take_all s)

strip_start-lead : (lead t : Bytes) → IsBlank lead → strip_start (lead ++ t) ≡ strip_start t
unfolding strip_start
strip_start-lead [] t h = refl
strip_start-lead (c ∷ lead) t (h, hs) = rw h (strip_start-lead lead t hs)

strip_start-clean : (t : Bytes) → IsTrimmed t → strip_start t ≡ t
unfolding strip_start
strip_start-clean [] h = refl
strip_start-clean (c ∷ t) h = ground (arith, h.starts, h.no_mark)

strip_end-EndsClean : (s : Bytes) → EndsClean s → strip_end (length s) s ≡ s
strip_end-EndsClean [] h = unfold strip_end in refl
strip_end-EndsClean (c ∷ s) h = strip_end-clean c s h

finish_unique :
    (lead t trail : Bytes)
    → IsBlank lead
    → IsBlank trail
    → IsTrimmed t
    → finish (lead ++ (t ++ trail)) ≡ t
finish_unique lead [] trail lb tb h =
    ap strip_start (strip_end-trail (lead ++ trail) [] (All-append _ lead trail lb tb))
    ∙ (unfold strip_end strip_start in refl)
finish_unique lead (c ∷ t) trail lb tb h =
    ap finish (sym (append_assoc lead (c ∷ t) trail))
    ∙ ap strip_start (strip_end-trail trail (lead ++ c ∷ t) tb)
    ∙ ap strip_start
        (strip_end-EndsClean (lead ++ c ∷ t) (EndsClean-append lead (c ∷ t) (cc) h.ends))
    ∙ strip_start-lead lead (c ∷ t) lb
    ∙ strip_start-clean (c ∷ t) h

regroup : (a b c d : Bytes) → a ++ (b ++ (c ++ d)) ≡ (a ++ (b ++ c)) ++ d
regroup a b c d = simp append_assoc

-- Any splitting of a string into blanks, a clean text, blanks and a comment shows what `trim` gives.
pub trim_of_parts :
    (lead t trail comment : Bytes)
    → IsBlank lead
    → IsBlank trail
    → IsComment comment
    → IsTrimmed t
    → IsCStr (lead ++ (t ++ (trail ++ comment)))
    → trim (lead ++ (t ++ (trail ++ comment))) ≡ t
trim_of_parts lead t trail comment lb tb k h z =
    trim-finish _ z
    ∙ ap finish (
        ap (take_while no_hash) (regroup lead t trail comment)
        ∙ take_while-comment (lead ++ (t ++ trail)) comment
            (All-append _ lead _ (blank-NoMark lead lb)
              (All-append _ t trail h.no_mark (blank-NoMark trail tb)))
            k)
    ∙ finish_unique lead t trail lb tb h

-- `trim` gives `t` exactly when the string is blanks, `t`, blanks and a comment, where `t` has no
-- comment mark and neither starts nor ends with a blank. The string holds no NUL.
pub trim_iff : (s t : Bytes) → IsCStr s → (trim s ≡ t) ↔ Trims s t
trim_iff s t z = (
  λ e. subst (Trims s) e (trim-Trims s z),
  λ r.
      ap trim r.splits
      ∙ trim_of_parts r.lead t r.trail r.comment r.lead_blank r.trail_blank r.comment_marked
          r.trimmed (subst IsCStr r.splits z),
)

-- The newline that `fgets` stores at the end of a line is trimmed with the rest.
pub trim_newline : (t : Bytes) → IsTrimmed t → IsCStr t → trim (t ++ b'\n' ∷ []) ≡ t
trim_newline t h z =
    ap trim (ap (λ x. t ++ x) (sym (append-nil (b'\n' ∷ []))))
    ∙ trim_of_parts [] t (b'\n' ∷ []) [] tt (newline_blank, tt) tt h
        (All-append _ t _ z (omega arith, tt))
  where
    newline_blank : is_space b'\n' ≡ true
    newline_blank = unfold is_space in refl
