-- ===== src/Tests/Reading.antt =====
-- Events read from a line of text.
use sto.Prelude.{ℕ, ◌≡◌, refl, none, some, [], ◌∷◌, arith, replicate}
use sto.Text.{codes, decimal, is_whitespace}
use sto.Text.Parse.{parse}
use sto.Text.Split.{IsWord, split_whitespace, split_first}
use sto.Defs.{Text}
use sto.Bpf.{StacktraceEvent, IsEvent, default, max_stack_depth}
use sto.Bpf.FromStr.{from_str, spaced, from_str-spaced, from_str-IsEvent}

abbrev line : Text
line = spaced (
    codes "event"
    ∷ codes "pid"
    ∷ decimal 42
    ∷ codes "u"
    ∷ decimal 4198400
    ∷ codes "k"
    ∷ decimal 7
    ∷ [])

abbrev read : StacktraceEvent
read = record default {
  pid = 42;
  ustack = replicate max_stack_depth 4198400;
  kstack = replicate max_stack_depth 7;
}

event-IsWord : IsWord (codes "event")
unfolding is_whitespace
event-IsWord = (refl, (refl, (refl, (refl, (refl, tt)))))

pid-IsWord : IsWord (codes "pid")
unfolding is_whitespace
pid-IsWord = (refl, (refl, (refl, tt)))

u-IsWord : IsWord (codes "u")
unfolding is_whitespace
u-IsWord = (refl, tt)

k-IsWord : IsWord (codes "k")
unfolding is_whitespace
k-IsWord = (refl, tt)

from_str-spaced_example : from_str line ≡ some read
from_str-spaced_example =
    from_str-spaced (codes "event") (codes "pid") (codes "u") (codes "k") 42 4198400 7 event-IsWord
      pid-IsWord u-IsWord k-IsWord (omega arith) (omega arith) (omega arith)

from_str-IsEvent_example :
    IsEvent read
    × ((ustack : ℕ) × (read.ustack ≡ replicate max_stack_depth ustack))
    × ((kstack : ℕ) × (read.kstack ≡ replicate max_stack_depth kstack))
from_str-IsEvent_example = from_str-IsEvent line read (
    from_str-spaced (codes "event") (codes "pid") (codes "u") (codes "k") 42 4198400 7 event-IsWord
      pid-IsWord u-IsWord k-IsWord (omega arith) (omega arith) (omega arith))

-- A line with a word too few
too_few : from_str (codes "event pid 42") ≡ none
unfolding from_str split_whitespace split_first is_whitespace parse
too_few = refl
