-- ===== src/Text/Words.antt =====
-- Laws of the text functions: words, joined texts, lengths.
use Prim.Native.Char.{Char, char}
use Prim.Native.String.{String, [], ◌∷◌, count, ◌++◌ as ◌+++◌}
use mathlib.Core.List.{List, [], ◌∷◌}
use text.Mathlib.TextLemmas.{nil-append, append-nil, cons-append, length-nil, length-cons}
use flux_bar.Prelude.{
  ℕ, zero, suc, ◌+◌, ◌≤◌, ◌≡◌, refl, ap, sym, ◌∙◌, Bool, false, ◌&&◌, arith, Bool-cases, inl, inr,
}
use flux_bar.Text.{
  is_whitespace, is_empty, push_front, split_by, without_empty, split_whitespace, join, trim_end,
  take_chars,
}

pub count-take_chars : (n : ℕ) (s : String) → count (take_chars n s) ≤ n
unfolding take_chars
count-take_chars zero s = rw length-nil (omega arith)
count-take_chars (suc n) [] = rw length-nil (omega arith)
count-take_chars (suc n) (c ∷ s) = rw length-cons (omega (arith, count-take_chars n s))

pub count-trim_end : (s : String) → count (trim_end s) ≤ count s
unfolding trim_end
count-trim_end [] = omega arith
count-trim_end (c ∷ s) = elim (Bool-cases (is_empty (trim_end s) && is_whitespace c)) [
  | inl gone ↦ rw (gone, length-nil) (omega arith)
  | inr kept ↦
      rw (kept, length-cons c s, length-cons c (trim_end s)) (omega (arith, count-trim_end s))
]

pub count-append : (s t : String) → count (s +++ t) ≡ count s + count t
count-append [] t = rw (nil-append, length-nil) (omega arith)
count-append (c ∷ s) t =
    rw (cons-append c s t, length-cons c (s +++ t), length-cons c s)
      (omega (arith, count-append s t))

-- A text without a cutting character, and with at least one character.
abbrev pub IsUncut : (Char → Bool) → String → Type 0
IsUncut cut [] = Unit
IsUncut cut (c ∷ s) = (cut c ≡ false) × IsUncut cut s

abbrev pub IsWord : String → Type 0
IsWord s = (is_empty s ≡ false) × IsUncut is_whitespace s

abbrev pub AllWords : List String → Type 0
AllWords [] = Unit
AllWords (w ∷ ws) = IsWord w × AllWords ws

abbrev AllUncut : (Char → Bool) → List String → Type 0
AllUncut cut [] = Unit
AllUncut cut (s ∷ pieces) = IsUncut cut s × AllUncut cut pieces

AllUncut-push_front :
    (cut : Char → Bool) (c : Char) (pieces : List String)
    → cut c ≡ false
    → AllUncut cut pieces
    → AllUncut cut (push_front c pieces)
AllUncut-push_front cut c [] h all = ((h, tt), tt)
AllUncut-push_front cut c (s ∷ pieces) h (here, rest) = ((h, here), rest)

AllUncut-split_by : (cut : Char → Bool) (s : String) → AllUncut cut (split_by cut s)
unfolding split_by
AllUncut-split_by cut [] = (tt, tt)
AllUncut-split_by cut (c ∷ s) = elim (Bool-cases (cut c)) [
  | inl at ↦ rw at (tt, AllUncut-split_by cut s)
  | inr off ↦ rw off (AllUncut-push_front cut c (split_by cut s) off (AllUncut-split_by cut s))
]

AllWords-without_empty :
    (pieces : List String) → AllUncut is_whitespace pieces → AllWords (without_empty pieces)
unfolding without_empty
AllWords-without_empty [] all = tt
AllWords-without_empty (s ∷ pieces) (here, rest) = elim (Bool-cases (is_empty s)) [
  | inl gone ↦ rw gone (AllWords-without_empty pieces rest)
  | inr kept ↦ rw kept ((kept, here), AllWords-without_empty pieces rest)
]

-- The words of a text are not empty and have no white space.
pub AllWords-split_whitespace : (s : String) → AllWords (split_whitespace s)
unfolding split_whitespace
AllWords-split_whitespace s =
    AllWords-without_empty (split_by is_whitespace s) (AllUncut-split_by is_whitespace s)

-- An uncut text in front extends the first piece.
abbrev extend : String → List String → List String
extend s [] = s ∷ []
extend s (piece ∷ pieces) = (s +++ piece) ∷ pieces

push_front-extend :
    (c : Char) (s : String) (pieces : List String)
    → push_front c (extend s pieces) ≡ extend (c ∷ s) pieces
push_front-extend c s [] = refl
push_front-extend c s (piece ∷ pieces) = rw (cons-append c s piece) refl

extend-nil : (cut : Char → Bool) (t : String) → split_by cut t ≡ extend [] (split_by cut t)
unfolding split_by
extend-nil cut t = of_pieces (split_by cut t) (split_by-cons cut t)
  where
    of_pieces : (pieces : List String) → (pieces ≡ [] → ⊥) → pieces ≡ extend [] pieces
    of_pieces [] h = absurd (h refl)
    of_pieces (p ∷ ps) h = rw (nil-append p) refl

    push_front-cons : (c : Char) (pieces : List String) → push_front c pieces ≡ [] → ⊥
    push_front-cons c [] h = cc h
    push_front-cons c (p ∷ ps) h = cc h

    split_by-cons : (cut : Char → Bool) (t : String) → split_by cut t ≡ [] → ⊥
    split_by-cons cut [] h = cc h
    split_by-cons cut (c ∷ t) h = elim (Bool-cases (cut c)) [
      | inl at ↦ cc (rw at at h)
      | inr off ↦ push_front-cons c (split_by cut t) (rw off at h)
    ]

split_by-append :
    (cut : Char → Bool) (s t : String)
    → IsUncut cut s
    → split_by cut (s +++ t) ≡ extend s (split_by cut t)
unfolding split_by
split_by-append cut [] t h = rw (nil-append t) (extend-nil cut t)
split_by-append cut (c ∷ s) t (here, h) =
    rw (cons-append c s t, here)
      (ap (push_front c) (split_by-append cut s t h) ∙ push_front-extend c s (split_by cut t))

abbrev b_space : Char
b_space = char 32 tt

extend_blank : (w : String) → extend w (split_by is_whitespace "") ≡ w ∷ []
unfolding split_by
extend_blank w = ap (λ (x : String). x ∷ []) (append-nil w)

space-append : (t : String) → " " +++ t ≡ b_space ∷ t
space-append t = cons-append b_space "" t ∙ ap (λ (x : String). b_space ∷ x) (nil-append t)

split_by-space : (t : String) → split_by is_whitespace (" " +++ t) ≡ [] ∷ split_by is_whitespace t
unfolding split_by is_whitespace
split_by-space t = rw (space-append t) refl

-- The separator of words cuts, and no word does.
split_by-join :
    (w : String) (ws : List String)
    → AllUncut is_whitespace (w ∷ ws)
    → split_by is_whitespace (join " " (w ∷ ws)) ≡ w ∷ ws
unfolding join
split_by-join w [] (here, _) =
    ap (split_by is_whitespace) (sym (append-nil w))
    ∙ split_by-append is_whitespace w [] here
    ∙ extend_blank w
split_by-join w (v ∷ ws) (here, rest) =
    let tail = join " " (v ∷ ws) in
    split_by-append is_whitespace w (" " +++ tail) here
    ∙ ap (extend w) (split_by-space tail)
    ∙ rw (append-nil w) (ap (λ (l : List String). w ∷ l) (split_by-join v ws rest))

AllUncut-AllWords : (ws : List String) → AllWords ws → AllUncut is_whitespace ws
AllUncut-AllWords [] all = tt
AllUncut-AllWords (w ∷ ws) ((_, here), rest) = (here, AllUncut-AllWords ws rest)

without_empty-words : (ws : List String) → AllWords ws → without_empty ws ≡ ws
unfolding without_empty
without_empty-words [] all = refl
without_empty-words (w ∷ ws) ((here, _), rest) =
    rw here (ap (λ (l : List String). w ∷ l) (without_empty-words ws rest))

-- Words that are joined by spaces are split into the same words.
pub split_whitespace-join : (ws : List String) → AllWords ws → split_whitespace (join " " ws) ≡ ws
unfolding split_whitespace
split_whitespace-join [] all = unfold join split_by without_empty is_empty in refl
split_whitespace-join (w ∷ ws) all =
    ap without_empty (split_by-join w ws (AllUncut-AllWords (w ∷ ws) all))
    ∙ without_empty-words (w ∷ ws) all
