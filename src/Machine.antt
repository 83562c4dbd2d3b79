-- ===== src/Machine.antt =====
-- How a C function of the repository runs: it makes calls of code that is not in the repository,
-- keeps static variables, and returns, leaves the process by `exit`, or faults.
--
-- What the called code answers is a parameter, `Env`: any function of the calls made so far and the
-- call at hand. The log of the calls and their replies is the only other state.
pub mod Buffer
pub mod Resources
use linux_device_drivers.Base.{◌≡◌, ℕ, ℤ, Bool, true, false, String, List, ◌∷◌}

-- What a call returns through a pointer: nothing, an error pointer -(n + 1), or an address.
pub data Ptr : Type 0 where
  null : Ptr
  err_ptr : ℕ → Ptr
  addr : ℕ → Ptr

-- An address, neither NULL nor an error.
abbrev pub is_addr : Ptr → Bool
is_addr (addr _) = true
is_addr _ = false

-- What a call answers. Each call uses the parts that its C prototype has: the return value, a
-- returned pointer, a number written through a pointer argument, and bytes written to a buffer.
pub record Reply : Type 0 where
  pub code : ℤ
  pub ptr : Ptr
  pub num : ℕ
  pub bytes : List ℕ

module _ (C : Type 0) where
  pub record Event : Type 0 where
    pub call : C
    pub reply : Reply

  -- The newest event stands first.
  abbrev pub Log : Type 0
  Log = List Event

  abbrev pub Env : Type 0
  Env = Log → C → Reply

  -- The static variables of a file, and the calls made so far.
  pub record St (G : Type 0) : Type 0 where
    pub globals : G
    pub log : Log

-- A memory access that C does not define.
pub data Fault : Type 0 where
  null_dereference out_of_bounds no_return_value : Fault

pub data Outcome (C G A : Type 0) : Type 0 where
  ok : A → St C G → Outcome C G A
  exited : ℤ → St C G → Outcome C G A
  fault : Fault → St C G → Outcome C G A

-- A function with static variables `G` that calls `C` and returns an `A`.
abbrev pub M : Type 0 → Type 0 → Type 0 → Type 0
M C G A = Env C → St C G → Outcome C G A

module _ {C G : Type 0} where
  abbrev pub pure : {A : Type 0} → A → M C G A
  pure a env s = ok a s

  abbrev pub and_then :
      {A B : Type 0} → Outcome C G A → (A → St C G → Outcome C G B) → Outcome C G B
  and_then (ok a s) k = k a s
  and_then (exited z s) k = exited z s
  and_then (fault f s) k = fault f s

  infixl 5 ◌>>=◌ ◌>>◌
  abbrev pub ◌>>=◌ : {A B : Type 0} → M C G A → (A → M C G B) → M C G B
  ◌>>=◌ m k env s = and_then (m env s) (λ a s'. k a env s')

  abbrev pub ◌>>◌ : {A B : Type 0} → M C G A → M C G B → M C G B
  m >> k = m >>= λ _. k

  -- The state after one more call.
  abbrev pub after : Env C → C → St C G → St C G
  after env c s = record s { log = record { call = c; reply = env s.log c } ∷ s.log }

  -- One call of code outside the repository.
  abbrev pub invoke : C → M C G Reply
  invoke c env s = ok (env s.log c) (after env c s)

  abbrev pub get : M C G G
  get env s = ok s.globals s

  abbrev pub put : G → M C G (Unit {0})
  put g env s = ok tt (record s { globals = g })

  -- `exit(code)`
  abbrev pub exit : {A : Type 0} → ℤ → M C G A
  exit z env s = exited z s

  abbrev pub crash : {A : Type 0} → Fault → M C G A
  crash f env s = fault f s

  -- The function returns normally, and what it returns and leaves behind satisfies `P`.
  abbrev pub Returns : {A : Type 0} → (A → St C G → Type 0) → Outcome C G A → Type 0
  Returns P (ok a s) = P a s
  Returns P (exited _ _) = ⊥
  Returns P (fault _ _) = ⊥

  -- The same, unless it faults or leaves the process.
  abbrev pub IfReturns : {A : Type 0} → (A → St C G → Type 0) → Outcome C G A → Type 0
  IfReturns P (ok a s) = P a s
  IfReturns P (exited _ _) = Unit {0}
  IfReturns P (fault _ _) = Unit {0}

  abbrev pub Faults : {A : Type 0} → Fault → Outcome C G A → Type 0
  Faults f (ok _ _) = ⊥
  Faults f (exited _ _) = ⊥
  Faults f (fault g _) = g ≡ f

-- A weaker postcondition.
pub Returns-mono :
    {C G A : Type 0} (P Q : A → St C G → Type 0) (o : Outcome C G A)
    → ((a : A) (s : St C G) → P a s → Q a s)
    → Returns P o
    → Returns Q o
Returns-mono P Q (ok a s) f h = f a s h
Returns-mono P Q (exited z s) f h = h
Returns-mono P Q (fault e s) f h = h

pub Returns-IfReturns :
    {C G A : Type 0} (P : A → St C G → Type 0) (o : Outcome C G A) → Returns P o → IfReturns P o
Returns-IfReturns P (ok a s) h = h
Returns-IfReturns P (exited z s) h = tt
Returns-IfReturns P (fault e s) h = tt

pub Returns-and_then :
    {C G A B : Type 0} (P : A → St C G → Type 0) (Q : B → St C G → Type 0) (o : Outcome C G A)
    (k : A → St C G → Outcome C G B)
    → ((a : A) (s : St C G) → P a s → Returns Q (k a s))
    → Returns P o
    → Returns Q (and_then o k)
Returns-and_then P Q (ok a s) k f h = f a s h
Returns-and_then P Q (exited z s) k f h = h
Returns-and_then P Q (fault e s) k f h = h
