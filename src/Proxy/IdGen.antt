-- ===== src/Proxy/IdGen.antt =====
-- proxy/idgen.go. The time of day is an argument of each call, as the number that "150405" spells:
-- hours, minutes and seconds with two digits each. The lock makes a call one step.
pub mod Unique
use securetunnel.Base.{ℕ, ◌+◌, ◌*◌, ◌%◌, ◌^◌, List, [], ◌∷◌, eqb, if◌then◌else◌}

abbrev pub max_counter : ℕ
max_counter = 2147

-- `if idGen.counter == maxCounter { idGen.counter = 0 }; idGen.counter++`.
unfoldable pub next_counter : ℕ → ℕ
next_counter counter = (if eqb counter max_counter then 0 else counter) + 1

-- `int32(id)`, as its bit pattern.
abbrev pub int32 : ℕ → ℕ
int32 id = id % 2 ^ 32

-- `generate`: the new counter, which is the state, and the id.
unfoldable pub generate : ℕ → ℕ → ℕ × ℕ
unfolding next_counter
generate time counter =
    let counter' = next_counter counter in (counter', int32 (counter' * 1_000_000 + time))

-- The ids of successive calls at the given times.
unfoldable pub generate_all : List ℕ → ℕ → List ℕ
unfolding generate
generate_all [] counter = []
generate_all (time ∷ times) counter =
    let (counter', id) = generate time counter in id ∷ generate_all times counter'
