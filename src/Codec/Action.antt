-- ===== src/Codec/Action.antt =====
-- A method that may fail and changes a state: `&mut self` with the stream that it is given.
use chatix_protocol.Base.{Result, ok, err, panic}
use chatix_protocol.Error.{ProtocolError}

abbrev pub Action : Type 0 → Type 0 → Type 0
Action S A = S → Result ProtocolError A × S

-- After an error the state stays as the failing step left it.
abbrev pub next :
    {S A B : Type 0} → Result ProtocolError A × S → (A → Action S B) → Result ProtocolError B × S
next (ok a, s) f = f a s
next (err e, s) f = (err e, s)
next (panic, s) f = (panic, s)

infixl 5 ◌>>=◌ ◌>>◌
abbrev pub ◌>>=◌ : {S A B : Type 0} → Action S A → (A → Action S B) → Action S B
(m >>= f) s = next (m s) f

abbrev pub ◌>>◌ : {S B : Type 0} → Action S (Unit {0}) → Action S B → Action S B
m >> k = m >>= λ _. k

abbrev pub pure : {S A : Type 0} → A → Action S A
pure a s = (ok a, s)

-- `?` on a result that needs no state.
abbrev pub lift : {S A : Type 0} → Result ProtocolError A → Action S A
lift r s = (r, s)
