-- ===== src/Bpf/FromStr.antt =====
-- `FromStr for stacktrace_event` of src/lib.rs: an event from a line of text.
use mathlib.Core.Path.{subst}
use sto.Prelude.{
  ◌>>=◌, >>=-eq-some, ℕ, zero, suc, ◌^◌, ◌<◌, ◌≡◌, refl, ap, ◌∙◌, Option, some, List, [], ◌∷◌, ◌++◌,
  arith, All, replicate, length, get_elem?,
}
use sto.Text.{is_whitespace, decimal}
use sto.Text.Split.{split_whitespace, split_whitespace-cons, split_whitespace-word, IsWord}
use sto.Text.Parse.{parse, parse-decimal, parse-lt, decimal-IsWord}
use sto.Bpf.{StacktraceEvent, IsEvent, default, max_stack_depth}

-- `split[i].parse().unwrap()`: `none` is the panic of either call.
abbrev pub field : ℕ → ℕ → List (List ℕ) → Option ℕ
field bound i split = do word ← get_elem? split i; parse bound word

-- The result is never an `Err`: `none` is a panic.
unfoldable pub from_str : List ℕ → Option StacktraceEvent
from_str s = do
  pid ← field (2 ^ 32) 2 (split_whitespace s)
  ustack ← field (2 ^ 64) 4 (split_whitespace s)
  kstack ← field (2 ^ 64) 6 (split_whitespace s)
  some (record default {
    pid = pid;
    ustack = replicate max_stack_depth ustack;
    kstack = replicate max_stack_depth kstack;
  })

-- Words with a space between them
abbrev pub spaced : List (List ℕ) → List ℕ
spaced [] = []
spaced (word ∷ []) = word
spaced (word ∷ next ∷ words) = word ++ 0x20 ∷ spaced (next ∷ words)

split_whitespace-spaced :
    (words : List (List ℕ)) → All IsWord words → split_whitespace (spaced words) ≡ words
split_whitespace-spaced [] h = unfold split_whitespace in refl
split_whitespace-spaced (word ∷ []) h = split_whitespace-word word h.0
split_whitespace-spaced (word ∷ next ∷ words) h =
    split_whitespace-cons word 0x20 (spaced (next ∷ words)) h.0 (unfold is_whitespace in refl)
    ∙ ap (◌∷◌ word) (split_whitespace-spaced (next ∷ words) h.1)

-- A line of seven words, with a process number as the third and one address each as the fifth and
-- the seventh, is read as the event of that process in which every entry of the user stack is the
-- first address and every entry of the kernel stack the second; the rest is zero.
pub from_str-spaced :
    (a b c d : List ℕ) (pid ustack kstack : ℕ)
    → IsWord a
    → IsWord b
    → IsWord c
    → IsWord d
    → pid < 2 ^ 32
    → ustack < 2 ^ 64
    → kstack < 2 ^ 64
    → from_str (spaced (a ∷ b ∷ decimal pid ∷ c ∷ decimal ustack ∷ d ∷ decimal kstack ∷ []))
      ≡ some (record default {
        pid = pid;
        ustack = replicate max_stack_depth ustack;
        kstack = replicate max_stack_depth kstack;
      })
unfolding from_str
from_str-spaced a b c d pid ustack kstack ha hb hc hd hp hu hk =
    rw
      (
        split_whitespace-spaced (a ∷ b ∷ decimal pid ∷ c ∷ decimal ustack ∷ d ∷ decimal kstack ∷ [])
            (
              ha,
              (
                hb,
                (
                  decimal-IsWord pid,
                  (hc, (decimal-IsWord ustack, (hd, (decimal-IsWord kstack, tt)))),
                ),
              ),
            ),
        parse-decimal (2 ^ 32) pid hp,
        parse-decimal (2 ^ 64) ustack hu,
        parse-decimal (2 ^ 64) kstack hk,
      )
      refl

length-replicate : (n w : ℕ) → length (replicate n w) ≡ n
length-replicate zero w = refl
length-replicate (suc n) w = ap suc (length-replicate n w)

All-replicate : (n w : ℕ) → w < 2 ^ 64 → All (λ (v : ℕ). v < 2 ^ 64) (replicate n w)
All-replicate zero w h = tt
All-replicate (suc n) w h = (h, All-replicate n w h)

field-lt :
    (bound i : ℕ) (split : List (List ℕ)) (n : ℕ)
    → 0 < bound
    → field bound i split ≡ some n
    → n < bound
field-lt bound i split n pos h =
    let (word, found, read) = >>=-eq-some (get_elem? split i) (parse bound) h in
    parse-lt bound word n pos read

-- Whatever the text, an event that is read has fields that fit their declared types, and each of
-- its stacks repeats one address.
pub from_str-IsEvent :
    (s : List ℕ) (e : StacktraceEvent)
    → from_str s ≡ some e
    → IsEvent e
      × ((ustack : ℕ) × (e.ustack ≡ replicate max_stack_depth ustack))
      × ((kstack : ℕ) × (e.kstack ≡ replicate max_stack_depth kstack))
unfolding from_str
from_str-IsEvent s e h =
    let split = split_whitespace s in
    let (pid, e₁, h₁) = >>=-eq-some (field (2 ^ 32) 2 split) _ h in
    let (ustack, e₂, h₂) = >>=-eq-some (field (2 ^ 64) 4 split) _ h₁ in
    let (kstack, e₃, h₃) = >>=-eq-some (field (2 ^ 64) 6 split) _ h₂ in
    let same : record default {
      pid = pid;
      ustack = replicate max_stack_depth ustack;
      kstack = replicate max_stack_depth kstack;
    }
        ≡ e =
      cc in
    subst
      (λ (e : StacktraceEvent).
        IsEvent e
        × ((ustack : ℕ) × (e.ustack ≡ replicate max_stack_depth ustack))
        × ((kstack : ℕ) × (e.kstack ≡ replicate max_stack_depth kstack)))
      same
      (
        record {
          pid = field-lt (2 ^ 32) 2 split pid (omega arith) e₁;
          cpu_id = omega arith;
          comm = refl;
          kstack_sz = omega arith;
          ustack_sz = omega arith;
          kstack = length-replicate max_stack_depth kstack;
          kstack_words =
              All-replicate max_stack_depth kstack
                (field-lt (2 ^ 64) 6 split kstack (omega arith) e₃);
          ustack = length-replicate max_stack_depth ustack;
          ustack_words =
              All-replicate max_stack_depth ustack
                (field-lt (2 ^ 64) 4 split ustack (omega arith) e₂);
        },
        (ustack, refl),
        (kstack, refl),
      )
