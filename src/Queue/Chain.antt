-- ===== src/Queue/Chain.antt =====
-- What the linked items of a queue (src/sc_tools.c) stand for: the list of their contents, the newest first.
use agility_contest_serial_c.Base.{
  ℕ, suc, ◌+◌, ◌≡◌, refl, ◌≢◌, Bool, true, false, ◌||◌, none, some, List, [], ◌∷◌, ◌++◌, arith,
  ◌==◌, ℤ, pos, Text, done, length,
}
use agility_contest_serial_c.Queue.{Ptr, null, Item, Queue, Heap, load}

-- The content of an item, without its link.
pub record Entry : Type 0 where
  pub address : Ptr
  pub expire : ℤ
  pub msg : Text

abbrev pub item : ℕ → Entry → Ptr → Item
item n e q = record { expire = e.expire; index = pos n; msg = e.msg; next = q }

abbrev pub Entries : Type 0
Entries = List Entry

abbrev pub has : Ptr → Entries → Bool
has a [] = false
has a (e ∷ es) = (a == e.address) || has a es

-- the address of the oldest entry
abbrev pub oldest : Entries → Ptr
oldest [] = null
oldest (e ∷ []) = e.address
oldest (e ∷ d ∷ es) = oldest (d ∷ es)

-- From `p` the links lead through the entries to NULL. Their indices count down from `n - 1`.
pub data Chain (h : Heap) : ℕ → Ptr → Entries → Type 0 where
  nil : {n : ℕ} → Chain h n null []
  cons :
      {n : ℕ} {q : Ptr} {e : Entry} {es : Entries}
      → e.address ≢ null
      → h e.address ≡ some (item n e q)
      → has e.address es ≡ false
      → Chain h n q es
      → Chain h (suc n) e.address (e ∷ es)

-- A queue whose next index is `n` holds the entries, the newest first.
pub record IsQueue (h : Heap) (q : Queue) (n : ℕ) (es : Entries) : Type 0 where
  pub chain : Chain h n q.last_out es
  pub first : q.first_out ≡ oldest es
  pub index : q.last_index ≡ pos n

pub Chain-nil : {h : Heap} {n : ℕ} {p : Ptr} → Chain h n p [] → p ≡ null
Chain-nil nil = refl

pub Chain-cons :
    {h : Heap} {n : ℕ} {p : Ptr} {e : Entry} {es : Entries}
    → Chain h n p (e ∷ es)
    → (p ≡ e.address) × (p ≢ null)
Chain-cons (cons a b c d) = (refl, a)

-- A chain survives every change that spares its addresses.
pub Chain-frame :
    {h : Heap} (g : Heap) {n : ℕ} {p : Ptr} {es : Entries}
    → Chain h n p es
    → ((a : Ptr) → has a es ≡ true → g a ≡ h a)
    → Chain g n p es
Chain-frame g nil same = nil
Chain-frame g (cons {e} ne holds new rest) same =
    cons ne (ground (arith, same e.address)) new (Chain-frame g rest λ a i. same a (ground arith))

pub Chain-unused :
    {h : Heap} {n : ℕ} {p : Ptr} {es : Entries} (a : Ptr)
    → Chain h n p es
    → h a ≡ none
    → has a es ≡ false
Chain-unused a nil unused = refl
Chain-unused a (cons ne holds new rest) unused = ground (arith, Chain-unused a rest unused)

-- the oldest item of a chain that is not empty: it is allocated, and no item follows it
pub Chain-oldest :
    {h : Heap} {n : ℕ} {p : Ptr} (es : Entries) (e : Entry)
    → Chain h n p (es ++ e ∷ [])
    → (oldest (es ++ e ∷ []) ≡ e.address)
      × (e.address ≢ null)
      × ((k : ℕ) × (h e.address ≡ some (item k e null)) × (k + length es + 1 ≡ n))
Chain-oldest [] e (cons {n} ne holds new nil) = (refl, ne, (n, holds, omega arith))
Chain-oldest (d ∷ []) e (cons ne holds new rest) =
    let (a, b, (k, c, f)) = Chain-oldest [] e rest in (a, b, (k, c, omega arith))
Chain-oldest (d ∷ c ∷ es) e (cons ne holds new rest) =
    let (a, b, (k, c, f)) = Chain-oldest (c ∷ es) e rest in (a, b, (k, c, omega arith))

pub load-some : (h : Heap) {p : Ptr} {i : Item} → p ≢ null → h p ≡ some i → load p h ≡ done i
unfolding load
load-some h ne e = ground arith
