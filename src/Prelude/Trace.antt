-- ===== src/Prelude/Trace.antt =====
-- Computations that make calls: each gets the calls made so far, the latest first, and adds its own.
use mathlib.Core.List.{List}

abbrev pub Trace : Type 0 → Type 0 → Type 0
Trace E A = List E → A × List E

infixl 5 ◌>>=◌ ◌>>◌
abbrev pub ◌>>=◌ : {E A B : Type 0} → Trace E A → (A → Trace E B) → Trace E B
◌>>=◌ m f h = let (a, h') = m h in f a h'

abbrev pub ◌>>◌ : {E A B : Type 0} → Trace E A → Trace E B → Trace E B
m >> k = m >>= λ _. k

abbrev pub pure : {E A : Type 0} → A → Trace E A
pure a h = (a, h)
