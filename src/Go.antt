-- ===== src/Go.antt =====
-- The parts of the Go language whose failures the modelled code can meet: a channel operation may
-- block for ever or panic, and so may a nil pointer and a failed type assertion.
use g_simulator.Prelude.{
  ◌∙◌, ◌≢◌, refl, Bool, true, false, subst, ℕ, ◌≡◌, List, [], ◌∷◌, ◌++◌, ltb, length, if◌then◌else◌,
  Option, none, some,
}

-- `blocks`: the goroutine waits; `panics`: a run-time panic.
pub data Result {ℓ} (A : Type ℓ) : Type ℓ where
  ok : A → Result A
  blocks : Result A
  panics : Result A

infixl 5 ◌>>=◌
abbrev pub ◌>>=◌ {ℓ κ} : {A : Type ℓ} {B : Type κ} → Result A → (A → Result B) → Result B
ok a >>= f = f a
blocks >>= f = blocks
panics >>= f = panics

-- A channel variable: nil; a buffered channel with what it holds, oldest first; an unbuffered
-- channel whose receiver loop is running, with what was handed over to it; closed, with what a
-- receiver can still take.
pub data Chan {ℓ} (M : Type ℓ) : Type ℓ where
  unmade : Chan M
  buffered : ℕ → List M → Chan M
  received : List M → Chan M
  closed : List M → Chan M

-- `c <- m`.
unfoldable pub send {ℓ} : {M : Type ℓ} → Chan M → M → Result (Chan M)
send unmade m = blocks
send (buffered cap held) m =
    if ltb (length held) cap then ok (buffered cap (held ++ m ∷ [])) else blocks
send (received taken) m = ok (received (taken ++ m ∷ []))
send (closed held) m = panics

-- `close(c)`.
unfoldable pub close {ℓ} : {M : Type ℓ} → Chan M → Result (Chan M)
close unmade = panics
close (buffered cap held) = ok (closed held)
close (received taken) = ok (closed taken)
close (closed held) = panics

-- `p.f` at a pointer: nil panics.
abbrev pub deref {ℓ} : {A : Type ℓ} → Option A → Result A
deref none = panics
deref (some a) = ok a

-- The operation returns, with a result of which `Q` holds.
abbrev pub Yields {ℓ} : {A : Type ℓ} → (A → Type 0) → Result A → Type 0
Yields Q (ok a) = Q a
Yields Q blocks = ⊥
Yields Q panics = ⊥

pub Yields-bind {ℓ} :
    {A B : Type ℓ} (P : A → Type 0) (Q : B → Type 0) (r : Result A) (f : A → Result B)
    → Yields P r
    → ((a : A) → P a → Yields Q (f a))
    → Yields Q (r >>= f)
Yields-bind P Q (ok a) f h k = k a h
Yields-bind P Q blocks f h k = absurd h
Yields-bind P Q panics f h k = absurd h

pub Yields-map {ℓ} :
    {A : Type ℓ} (P Q : A → Type 0) (r : Result A) → ((a : A) → P a → Q a) → Yields P r → Yields Q r
Yields-map P Q (ok a) k h = k a h
Yields-map P Q blocks k h = h
Yields-map P Q panics k h = h

-- If the operation returns, then with a result of which `Q` holds.
abbrev pub Ensures {ℓ} : {A : Type ℓ} → (A → Type 0) → Result A → Type 0
Ensures Q (ok a) = Q a
Ensures Q blocks = Unit
Ensures Q panics = Unit

pub Ensures-bind {ℓ} :
    {A B : Type ℓ} (P : A → Type 0) (Q : B → Type 0) (r : Result A) (f : A → Result B)
    → Ensures P r
    → ((a : A) → P a → Ensures Q (f a))
    → Ensures Q (r >>= f)
Ensures-bind P Q (ok a) f h k = k a h
Ensures-bind P Q blocks f h k = tt
Ensures-bind P Q panics f h k = tt

pub Ensures-map {ℓ} :
    {A : Type ℓ} (P Q : A → Type 0) (r : Result A)
    → ((a : A) → P a → Q a)
    → Ensures P r
    → Ensures Q r
Ensures-map P Q (ok a) k h = k a h
Ensures-map P Q blocks k h = tt
Ensures-map P Q panics k h = tt

pub Ensures-any {ℓ} : {A : Type ℓ} (r : Result A) → Ensures (λ a. Unit {0}) r
Ensures-any (ok a) = tt
Ensures-any blocks = tt
Ensures-any panics = tt

pub Ensures-if {ℓ} :
    {A : Type ℓ} (Q : A → Type 0) (b : Bool) (r s : Result A)
    → (b ≡ true → Ensures Q r)
    → (b ≡ false → Ensures Q s)
    → Ensures Q (if b then r else s)
Ensures-if Q true r s h k = h refl
Ensures-if Q false r s h k = k refl

pub Ensures-option {ℓ κ} :
    {A : Type ℓ} {B : Type κ} (Q : A → Type 0) (o : Option B) (r : Result A) (f : B → Result A)
    → Ensures Q r
    → ((b : B) → Ensures Q (f b))
    → Ensures Q (elim o [ none ↦ r | some b ↦ f b ])
Ensures-option Q none r f h k = h
Ensures-option Q (some b) r f h k = k b

pub ensured {ℓ} :
    {A : Type ℓ} (Q : A → Type 0) (r : Result A) (a : A) → r ≡ ok a → Ensures Q r → Q a
ensured Q r a e h = subst (Ensures Q) e h

-- The call does not panic, and if it returns, then with a result of which `Q` holds.
abbrev pub Safely {ℓ} : {A : Type ℓ} → (A → Type 0) → Result A → Type 0
Safely Q (ok a) = Q a
Safely Q blocks = Unit
Safely Q panics = ⊥

pub Safely-bind {ℓ} :
    {A B : Type ℓ} (P : A → Type 0) (Q : B → Type 0) (r : Result A) (f : A → Result B)
    → Safely P r
    → ((a : A) → P a → Safely Q (f a))
    → Safely Q (r >>= f)
Safely-bind P Q (ok a) f h k = k a h
Safely-bind P Q blocks f h k = tt
Safely-bind P Q panics f h k = absurd h

pub Safely-map {ℓ} :
    {A : Type ℓ} (P Q : A → Type 0) (r : Result A) → ((a : A) → P a → Q a) → Safely P r → Safely Q r
Safely-map P Q (ok a) k h = k a h
Safely-map P Q blocks k h = tt
Safely-map P Q panics k h = h

pub panics-bind {ℓ κ} :
    {A : Type ℓ} {B : Type κ} (r : Result A) (f : A → Result B)
    → r ≢ blocks
    → ((a : A) → f a ≡ panics)
    → (r >>= f) ≡ panics
panics-bind (ok a) f n k = k a
panics-bind blocks f n k = absurd (n refl)
panics-bind panics f n k = refl

-- A block does not block if its parts do not.
pub bind-ne-blocks {ℓ κ} :
    {A : Type ℓ} {B : Type κ} (r : Result A) (f : A → Result B)
    → r ≢ blocks
    → ((a : A) → f a ≢ blocks)
    → (r >>= f) ≢ blocks
bind-ne-blocks (ok a) f n k = k a
bind-ne-blocks blocks f n k = absurd (n refl)
bind-ne-blocks panics f n k = cc

-- If the channel is closed, it stays so, and nothing is put on it.
abbrev pub StaysClosed : {M : Type 0} → Chan M → Chan M → Type 0
StaysClosed {M = M} c d = (held : List M) → c ≡ closed held → d ≡ closed held

open_lem {ℓ} :
    {A : Type ℓ} {M : Type 0} (out : A → Chan M) (c : Chan M) (r : Result A)
    → ((held : List M) → c ≢ closed held)
    → Ensures (λ a. StaysClosed c (out a)) r
open_lem out c r n =
    Ensures-map (λ a. Unit {0}) _ r (λ a k held e. absurd (n held e)) (Ensures-any r)

-- An operation leaves a closed channel as it is if it does so on every closed channel.
pub StaysClosed_intro {ℓ} :
    {A : Type ℓ} {M : Type 0} (out : A → Chan M) (f : Chan M → Result A)
    → ((held : List M) → Ensures (λ a. out a ≡ closed held) (f (closed held)))
    → (c : Chan M) → Ensures (λ a. StaysClosed c (out a)) (f c)
StaysClosed_intro out f h unmade = open_lem out unmade (f unmade) λ held e. cc
StaysClosed_intro out f h (buffered n m) =
    open_lem out (buffered n m) (f (buffered n m)) λ held e. cc
StaysClosed_intro out f h (received m) = open_lem out (received m) (f (received m)) λ held e. cc
StaysClosed_intro out f h (closed m) =
    Ensures-map (λ a. out a ≡ closed m) (λ a. StaysClosed (closed m) (out a)) (f (closed m))
      (λ a k held e. k ∙ e) (h m)
