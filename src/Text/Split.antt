-- ===== src/Text/Split.antt =====
-- `str::split_whitespace`, and that it finds the words of a text.
use sto.Prelude.{ℕ, ◌≡◌, refl, ap, true, false, List, [], ◌∷◌, ◌++◌, if◌then◌else◌, All}
use sto.Text.{is_whitespace}

-- A word that has ended, unless there is none.
abbrev pub push : List ℕ → List (List ℕ) → List (List ℕ)
push [] words = words
push (c ∷ word) words = (c ∷ word) ∷ words

-- The word that a text starts with, and those behind it.
unfoldable pub split_first : List ℕ → List ℕ × List (List ℕ)
split_first [] = ([], [])
split_first (c ∷ cs) =
    let (word, words) = split_first cs in
    if is_whitespace c then ([], push word words) else (c ∷ word, words)

-- `s.split_whitespace().collect()`
unfoldable pub split_whitespace : List ℕ → List (List ℕ)
unfolding split_first
split_whitespace s = let (word, words) = split_first s in push word words

abbrev pub IsInWord : ℕ → Type 0
IsInWord c = is_whitespace c ≡ false

-- A text that is one word
abbrev pub IsWord : List ℕ → Type 0
IsWord [] = ⊥
IsWord (c ∷ cs) = IsInWord c × All IsInWord cs

split_first-append :
    (word : List ℕ) (c : ℕ) (rest : List ℕ)
    → All IsInWord word
    → is_whitespace c ≡ true
    → split_first (word ++ c ∷ rest) ≡ (word, split_whitespace rest)
unfolding split_first split_whitespace
split_first-append [] c rest h sep = rw sep refl
split_first-append (d ∷ word) c rest h sep =
    rw (h.0, split_first-append word c rest h.1 sep) (unfold split_whitespace in refl)

-- A word and a space in front of a text are one more word.
pub split_whitespace-cons :
    (word : List ℕ) (c : ℕ) (rest : List ℕ)
    → IsWord word
    → is_whitespace c ≡ true
    → split_whitespace (word ++ c ∷ rest) ≡ word ∷ split_whitespace rest
unfolding split_whitespace
split_whitespace-cons [] c rest h sep = absurd h
split_whitespace-cons (d ∷ word) c rest h sep =
    ap (λ p. push p.0 p.1) (split_first-append (d ∷ word) c rest h sep)

split_first-word : (word : List ℕ) → All IsInWord word → split_first word ≡ (word, [])
unfolding split_first
split_first-word [] h = refl
split_first-word (c ∷ word) h = rw (h.0, split_first-word word h.1) refl

pub split_whitespace-word : (word : List ℕ) → IsWord word → split_whitespace word ≡ word ∷ []
unfolding split_whitespace
split_whitespace-word [] h = absurd h
split_whitespace-word (c ∷ word) h = rw (split_first-word (c ∷ word) h) refl
