-- ===== src/Startup/Slots.antt =====
-- The slots of the threads that src/main.c starts.
use agility_contest_serial_c.Base.{
  ℕ, suc, ◌<◌, ◌≤◌, Bool, true, false, ◌&&◌, not, List, [], ◌∷◌, ◌++◌, Text, codes, strcase_eq,
  arith, pos, eqb_ℤ,
}
use agility_contest_serial_c.Config.{Configuration}
use agility_contest_serial_c.Startup.{
  Thread, threads_of, thread_if, is_some, is_canometer, has_console, server_of,
}

-- the slots rise, from a bound on, and are below 5
abbrev pub RisesFrom : ℕ → List Thread → Type 0
RisesFrom n [] = Unit
RisesFrom n ((slot, name) ∷ ts) = (n ≤ slot) × (slot < 5) × RisesFrom (suc slot) ts

RisesFrom-le : (n m : ℕ) (ts : List Thread) → n ≤ m → RisesFrom m ts → RisesFrom n ts
RisesFrom-le n m [] le h = tt
RisesFrom-le n m ((slot, name) ∷ ts) le (from, small, more) = (omega (arith, le, from), small, more)

RisesFrom-thread_if :
    (b : Bool) (n slot : ℕ) (name : Text) (ts : List Thread)
    → n ≤ slot
    → slot < 5
    → RisesFrom (suc slot) ts
    → RisesFrom n (thread_if b (slot, name) ++ ts)
RisesFrom-thread_if true n slot name ts from small h = (from, small, h)
RisesFrom-thread_if false n slot name ts from small h =
    RisesFrom-le n (suc slot) ts (omega (arith, from)) h

RisesFrom-last :
    (b : Bool) (slot : ℕ) (name : Text) → slot < 5 → RisesFrom slot (thread_if b (slot, name))
RisesFrom-last true slot name small = (omega arith, small, tt)
RisesFrom-last false slot name small = tt

-- of the two threads of slot 1 one at most is started
RisesFrom-either :
    (x y k : Bool) (a b : Text) (ts : List Thread)
    → RisesFrom 2 ts
    → RisesFrom 1 (thread_if (x && not k) (1, a) ++ (thread_if (y && k) (1, b) ++ ts))
RisesFrom-either true true false a b ts h = (omega arith, omega arith, h)
RisesFrom-either true false false a b ts h = (omega arith, omega arith, h)
RisesFrom-either true y true a b ts h =
    RisesFrom-thread_if (y && true) 1 1 b ts (omega arith) (omega arith) h
RisesFrom-either false y k a b ts h =
    RisesFrom-thread_if (y && k) 1 1 b ts (omega arith) (omega arith) h

-- The threads that are started have slots of their own, in rising order and below 5, whatever the configuration
-- is: the serial and the network manager, which share a slot, are not started both.
pub threads_of-RisesFrom : (c : Configuration) → RisesFrom 0 (threads_of c)
unfolding threads_of
threads_of-RisesFrom c =
    RisesFrom-thread_if (has_console c) 0 0 (codes "user_server") _ (omega arith) (omega arith) (
      RisesFrom-either (is_some c.comm_port) (is_some c.comm_ipaddr) (is_canometer c)
        (codes "comm_server") (codes "net_server") _
        (RisesFrom-thread_if (not (eqb_ℤ c.web_port (pos 0))) 2 2 (codes "web_server") _
          (omega arith) (omega arith)
          (RisesFrom-thread_if (is_some (server_of c.ajax_server)) 3 3 (codes "ac_server") _
            (omega arith) (omega arith)
            (RisesFrom-last (not (strcase_eq c.qrcomm_port (codes "none"))) 4
              (codes "qrcode_server") (omega arith)))))
