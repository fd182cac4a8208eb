-- ===== src/Util/Trim.antt =====
-- What `trim` of util.c leaves of a string.
use stonesh.Prelude.{
  ℕ, zero, suc, ◌≤◌, ◌<◌, Bool, true, false, not, [], ◌∷◌, ◌++◌, append_assoc, append-nil, ◌≡◌, ◌≢◌,
  inl, inr, refl, sym, ap, ◌∙◌, subst, arith, Bytes, ◌==◌, Bool-cases, length, get_or, take,
  take_while, drop_while, take_while-append-drop_while, All, All-append, All-append_parts,
}
use stonesh.Libc.{c_str, is_space}
use stonesh.Util.{cut_comment, strip_end, strip_start, trim}

-- A C string holds no NUL.
abbrev pub IsCStr : Bytes → Type 0
IsCStr = All (λ c. c ≢ 0)

abbrev pub IsBlank : Bytes → Type 0
IsBlank = All (λ c. is_space c ≡ true)

abbrev pub NoMark : Bytes → Type 0
NoMark = All (λ c. c ≢ b'#')

abbrev pub StartsClean : Bytes → Type 0
StartsClean [] = Unit
StartsClean (c ∷ s) = is_space c ≡ false

abbrev pub EndsClean : Bytes → Type 0
EndsClean [] = Unit
EndsClean (c ∷ []) = is_space c ≡ false
EndsClean (c ∷ d ∷ s) = EndsClean (d ∷ s)

-- A comment is empty or starts with its mark.
abbrev pub IsComment : Bytes → Type 0
IsComment [] = Unit
IsComment (c ∷ s) = c ≡ b'#'

pub record IsTrimmed (t : Bytes) : Type 0 where
  pub no_mark : NoMark t
  pub starts : StartsClean t
  pub ends : EndsClean t

-- `t` is the text of `s` between the blanks, in front of the comment.
pub record Trims (s t : Bytes) : Type 0 where
  pub lead : Bytes
  pub trail : Bytes
  pub comment : Bytes
  pub splits : s ≡ lead ++ (t ++ (trail ++ comment))
  pub lead_blank : IsBlank lead
  pub trail_blank : IsBlank trail
  pub comment_marked : IsComment comment
  pub trimmed : IsTrimmed t

abbrev pub no_hash : ℕ → Bool
no_hash c = not (c == b'#')

-- The first loop keeps what stands in front of the comment.
c_str-cut_comment : (s : Bytes) → IsCStr s → c_str (cut_comment false s) ≡ take_while no_hash s
unfolding c_str cut_comment
c_str-cut_comment [] h = refl
c_str-cut_comment (c ∷ s) (h, hs) = ground (arith, c_str-cut_comment s hs)

take_while-NoMark : (s : Bytes) → NoMark (take_while no_hash s)
take_while-NoMark [] = tt
take_while-NoMark (c ∷ s) = ground (arith, take_while-NoMark s)

drop_while-IsComment : (s : Bytes) → IsComment (drop_while no_hash s)
drop_while-IsComment [] = tt
drop_while-IsComment (c ∷ s) = ground (arith, drop_while-IsComment s)

before-IsComment :
    (s : Bytes) → (comment : Bytes) × (s ≡ take_while no_hash s ++ comment) × IsComment comment
before-IsComment s =
    (drop_while no_hash s, sym (take_while-append-drop_while no_hash s), drop_while-IsComment s)

take-suc : (l : ℕ) (p : Bytes) → l < length p → take (suc l) p ≡ take l p ++ get_or p l 0 ∷ []
take-suc l [] h = absurd (omega arith)
take-suc zero (c ∷ p) h = refl
take-suc (suc l) (c ∷ p) h = ap (◌∷◌ c) (take-suc l p (omega arith))

concat-EndsClean : (t : Bytes) (c : ℕ) → is_space c ≡ false → EndsClean (t ++ c ∷ [])
concat-EndsClean [] c h = h
concat-EndsClean (b ∷ []) c h = h
concat-EndsClean (b ∷ d ∷ t) c h = concat-EndsClean (d ∷ t) c h

pub EndsClean-append : (s : Bytes) (t : Bytes) → t ≢ [] → EndsClean t → EndsClean (s ++ t)
EndsClean-append [] t ne h = h
EndsClean-append (c ∷ []) [] ne h = absurd (ne refl)
EndsClean-append (c ∷ []) (d ∷ t) ne h = h
EndsClean-append (c ∷ d ∷ s) t ne h = EndsClean-append (d ∷ s) t ne h

-- The second loop drops blanks alone, and stops at a byte that is none.
strip_end_lem :
    (l : ℕ) (p : Bytes)
    → l ≤ length p
    → (trail : Bytes) × (take l p ≡ strip_end l p ++ trail)
      × IsBlank trail
      × EndsClean (strip_end l p)
unfolding strip_end
strip_end_lem zero p h = ([], refl, tt, tt)
strip_end_lem (suc l) p h = elim (Bool-cases (is_space (get_or p l 0))) [
  | inl blank ↦
      let (trail, e, b, c) = strip_end_lem l p (omega arith) in
      rw blank (
        trail ++ get_or p l 0 ∷ [],
        take-suc l p h ∙ ap (λ x. x ++ get_or p l 0 ∷ []) e ∙ append_assoc (strip_end l p) trail _,
        All-append _ trail _ b (blank, tt),
        c,
      )
  | inr last ↦
      rw last ([], sym (append-nil _), tt, rw (take-suc l p h) (concat-EndsClean (take l p) _ last))
]

pub take_all : (p : Bytes) → take (length p) p ≡ p
take_all [] = refl
take_all (c ∷ p) = ap (◌∷◌ c) (take_all p)

tail-EndsClean : (c : ℕ) (t : Bytes) → EndsClean (c ∷ t) → EndsClean t
tail-EndsClean c [] h = tt
tail-EndsClean c (d ∷ t) h = h

-- The third loop drops blanks alone, since no comment is left, and stops at a byte that is none.
strip_start_lem :
    (q : Bytes)
    → NoMark q
    → EndsClean q
    → (lead : Bytes) × (q ≡ lead ++ strip_start q) × IsBlank lead × IsTrimmed (strip_start q)
unfolding strip_start
strip_start_lem [] m e = ([], refl, tt, record { no_mark = tt; starts = tt; ends = tt })
strip_start_lem (c ∷ q) (m, ms) e = elim (Bool-cases (is_space c)) [
  | inl blank ↦
      let (lead, sp, b, t) = strip_start_lem q ms (tail-EndsClean c q e) in
      rw blank (c ∷ lead, ap (◌∷◌ c) sp, (blank, b), t)
  | inr first ↦
      rw (first, ne_test m) ([], refl, tt, record { no_mark = (m, ms); starts = first; ends = e })
]
  where
    ne_test : {d : ℕ} → d ≢ b'#' → (d == b'#') ≡ false
    ne_test n = ground arith

abbrev pub finish : Bytes → Bytes
finish p = strip_start (strip_end (length p) p)

pub trim-finish : (s : Bytes) → IsCStr s → trim s ≡ finish (take_while no_hash s)
unfolding trim
trim-finish [] h = refl
trim-finish (c ∷ s) h = ap finish (c_str-cut_comment (c ∷ s) h)

finish-Trims : (s comment : Bytes) → NoMark s → IsComment comment → Trims (s ++ comment) (finish s)
finish-Trims s comment m k =
    let (trail, e, tb, ends) = strip_end_lem (length s) s (omega arith) in
    let e' = sym (take_all s) ∙ e in
    let (lead, sp, lb, t) =
      strip_start_lem (strip_end (length s) s) (All-append_parts _ _ trail (rw (← e') m)).0 ends in
    record {
      lead = lead;
      trail = trail;
      comment = comment;
      splits = ap (λ x. x ++ comment) (e' ∙ ap (λ x. x ++ trail) sp) ∙ simp append_assoc;
      lead_blank = lb;
      trail_blank = tb;
      comment_marked = k;
      trimmed = t;
    }

-- `trim` returns the text between the blanks in front of the comment. The string holds no NUL.
pub trim-Trims : (s : Bytes) → IsCStr s → Trims s (trim s)
trim-Trims s h =
    let (comment, e, k) = before-IsComment s in
    rw (trim-finish s h) (
      subst (λ x. Trims x (finish (take_while no_hash s))) (sym e)
        (finish-Trims (take_while no_hash s) comment (take_while-NoMark s) k))

pub get_or_last :
    (c : ℕ) (s : Bytes) → EndsClean (c ∷ s) → is_space (get_or (c ∷ s) (length s) 0) ≡ false
get_or_last c [] h = h
get_or_last c (d ∷ s) h = get_or_last d s h

pub take_while_all : (s : Bytes) → NoMark s → take_while no_hash s ≡ s
take_while_all [] h = refl
take_while_all (c ∷ s) (h, hs) = ground (arith, take_while_all s hs)

finish-eq_self : (s : Bytes) → IsTrimmed s → finish s ≡ s
unfolding strip_end strip_start
finish-eq_self [] t = refl
finish-eq_self (c ∷ s) t =
    rw (get_or_last c s t.ends, take_all s) (ground (arith, t.starts, t.no_mark))

-- A trimmed string is left as it is.
pub trim_of_IsTrimmed : (s : Bytes) → IsCStr s → IsTrimmed s → trim s ≡ s
trim_of_IsTrimmed s h t =
    trim-finish s h ∙ ap finish (take_while_all s t.no_mark) ∙ finish-eq_self s t

pub trim-IsCStr : (s : Bytes) → IsCStr s → IsCStr (trim s)
trim-IsCStr s h =
    let t = trim-Trims s h in
    let behind = (All-append_parts _ t.lead _ (rw t.splits at h)).1 in
    (All-append_parts _ (trim s) _ behind).0

-- Trimming twice is trimming once. The string holds no NUL.
pub trim-trim : (s : Bytes) → IsCStr s → trim (trim s) ≡ trim s
trim-trim s h = trim_of_IsTrimmed (trim s) (trim-IsCStr s h) (trim-Trims s h).trimmed
