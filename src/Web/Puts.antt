-- ===== src/Web/Puts.antt =====
-- Which messages the commands of the table of src/web_mgr.c put into the queue.
use agility_contest_serial_c.Base.{
  if◌then◌else◌, ◌==◌, ◌+◌, ◌-◌, List, [], ◌++◌, take, sym, ap, ◌∙◌, ◌⊎◌, inl, inr, Bool-cases,
  append_assoc, codes, print_int, ℕ, suc, ◌^◌, ◌<◌, ◌≡◌, ◌≢◌, refl, true, false, none, some, ◌∷◌,
  ltb, pos, Text, str_eq, str_eq_iff, length, done, arith,
}
use agility_contest_serial_c.Queue.{null, Queue, Heap}
use agility_contest_serial_c.Queue.Chain.{Entries, IsQueue}
use agility_contest_serial_c.Queue.Put.{queue_put-IsQueue, entry}
use agility_contest_serial_c.Tokens.{Tokens}
use agility_contest_serial_c.Dispatch.{World, ManagerHandler}
use agility_contest_serial_c.Tools.Explode.{join}
use agility_contest_serial_c.Web.{
  Page, Supply, sc_web, text_of, put, send, send_tokens, web_mgr_send_msg, spaced, unless_web,
  web_entries, web_mgr_send_start, web_mgr_send_walk, web_mgr_send_down, web_mgr_send_turn,
  web_mgr_send_bright,
}

join-glue :
    (a b : Text) (ts : List Text) → join b' ' ((a ++ b' ' ∷ b) ∷ ts) ≡ join b' ' (a ∷ b ∷ ts)
unfolding join
join-glue a b [] = refl
join-glue a b (t ∷ ts) = append_assoc a (b' ' ∷ b) (b' ' ∷ join b' ' (t ∷ ts))

spaced-join : (a : Text) (ts : List Text) → spaced a ts ≡ join b' ' (a ∷ ts)
unfolding join
spaced-join a [] = refl
spaced-join a (t ∷ ts) = spaced-join (a ++ b' ' ∷ t) ts ∙ join-glue a t ts

take-append : (args more : List Text) → take (length args) (args ++ more) ≡ args
take-append [] more = refl
take-append (a ∷ args) more = ap (λ ts. a ∷ ts) (take-append args more)

-- the tokens that are counted, and none of those behind them
text_of-join :
    (t : Tokens) (args more : List Text)
    → t.args ≡ args ++ more
    → text_of t (2 + length args) ≡ join b' ' (t.cmd ∷ args)
text_of-join t args more tokens =
    let counted : 2 + length args - 2 ≡ length args = omega arith in
    rw (counted, tokens, take-append args more) (spaced-join t.cmd args)

-- The commands of the table by their index, with the arguments that are counted, and the message that the page is to
-- get: the command with its arguments, a text of the handler where there is not one argument, or the number of
-- the configuration.
pub data MessageOf (w : World Page) : ℕ → Text → List Text → Text → Type 0 where
  int_message : {cmd : Text} {args : List Text} → MessageOf w 1 cmd args (join b' ' (cmd ∷ args))
  stop_message : {cmd : Text} {args : List Text} → MessageOf w 2 cmd args (join b' ' (cmd ∷ args))
  fail_message : {cmd : Text} {args : List Text} → MessageOf w 3 cmd args (join b' ' (cmd ∷ args))
  ok_message : {cmd : Text} {args : List Text} → MessageOf w 4 cmd args (join b' ' (cmd ∷ args))
  msg_message : {cmd : Text} {args : List Text} → MessageOf w 5 cmd args (join b' ' (cmd ∷ args))
  reset_message : {cmd : Text} {args : List Text} → MessageOf w 12 cmd args (join b' ' (cmd ∷ args))
  start_message : {cmd a : Text} → MessageOf w 0 cmd (a ∷ []) (join b' ' (cmd ∷ a ∷ []))
  walk_message : {cmd a : Text} → MessageOf w 6 cmd (a ∷ []) (join b' ' (cmd ∷ a ∷ []))
  down_message : {cmd a : Text} → MessageOf w 7 cmd (a ∷ []) (join b' ' (cmd ∷ a ∷ []))
  start_default :
      {cmd : Text} {args : List Text} → length args ≢ 1 → MessageOf w 0 cmd args (codes "start 0")
  walk_default :
      {cmd : Text} {args : List Text} → length args ≢ 1 → MessageOf w 6 cmd args (codes "walk 420")
  down_default :
      {cmd : Text} {args : List Text} → length args ≢ 1 → MessageOf w 7 cmd args (codes "down 15")
  turn_message :
      {cmd : Text} {args : List Text}
      → MessageOf w 20 cmd args (codes "turn " ++ print_int w.main.config.status.numero)
  bright_message :
      {cmd : Text} {args : List Text}
      → MessageOf w 21 cmd args (codes "bright " ++ print_int w.main.config.bright)

module _ (supply : Supply) (w : World Page) (q : Queue) (n : ℕ) (es : Entries)
    (page : w.app.output_queue ≡ some q) (is : IsQueue w.app.heap q n es)
    (fresh : supply.calloc w.app.heap ≢ null)
    (unused : w.app.heap (supply.calloc w.app.heap) ≡ none)
    (copied : supply.strdup w.app.heap ≡ true) (room : suc n < 2 ^ 31) where
  put_lem :
      (msg : Text)
      → (q' : Queue) × (h' : Heap) × (put supply msg w
          ≡ done (record w { app = record { output_queue = some q'; heap = h' } }))
        × IsQueue h' q' (suc n) (entry (supply.calloc w.app.heap) (supply.now w.app.heap) msg ∷ es)
  unfolding put
  put_lem msg =
      let (q', h', e, is') =
        queue_put-IsQueue (supply.calloc w.app.heap) (supply.now w.app.heap) msg is fresh unused
          room in
      (q', h', rw (copied, page, e) refl, is')

  -- for another source, the message `msg` in front of the others, and its length as the result
  abbrev pub PutsMessage : ManagerHandler Page → Tokens → ℕ → Text → Type 0
  PutsMessage handler t k msg =
      (q' : Queue) × (h' : Heap) × (handler w t k
        ≡ done
            (pos (length msg), record w { app = record { output_queue = some q'; heap = h' } }, t))
      × IsQueue h' q' (suc n) (entry (supply.calloc w.app.heap) (supply.now w.app.heap) msg ∷ es)

  -- a command of the web server itself is left alone
  abbrev pub Puts : ManagerHandler Page → Tokens → ℕ → Text → Type 0
  Puts handler t k msg =
      ((t.source ≡ sc_web) × (handler w t k ≡ done (pos 0, w, t)))
      ⊎ ((t.source ≢ sc_web) × PutsMessage handler t k msg)

  send-PutsMessage :
      (msg : Text) (t : Tokens) (k : ℕ)
      → PutsMessage (λ w t k. send supply msg (length msg) w t) t k msg
  unfolding send
  send-PutsMessage msg t k = let (q', h', e, is') = put_lem msg in (q', h', rw e refl, is')

  tokens-PutsMessage :
      (t : Tokens) (args more : List Text)
      → t.args ≡ args ++ more
      → length (join b' ' (t.cmd ∷ args)) < 1024
      → PutsMessage (send_tokens supply) t (2 + length args) (join b' ' (t.cmd ∷ args))
  unfolding send_tokens send
  tokens-PutsMessage t args more tokens fits =
      let msg = join b' ' (t.cmd ∷ args) in
      let (q', h', e, is') = put_lem msg in
      let small : ltb (length msg) 1024 ≡ true = ground (arith, fits) in
      (q', h', rw (text_of-join t args more tokens, small, e) refl, is')

  unless_web-Puts :
      (handler : ManagerHandler Page) (t : Tokens) (k : ℕ) (msg : Text)
      → (str_eq sc_web t.source ≡ false → PutsMessage handler t k msg)
      → Puts (unless_web supply handler) t k msg
  unfolding unless_web
  unless_web-Puts handler t k msg puts = elim (Bool-cases (str_eq sc_web t.source)) [
    | inl own ↦ inl (sym ((str_eq_iff sc_web t.source).0 own), rw own refl)
    | inr foreign ↦
        let (q', h', e, is') = puts foreign in
        inr (
          λ same. cc (foreign, (str_eq_iff sc_web t.source).1 (sym same)),
          (q', h', rw foreign e, is'),
        )
  ]

  -- what a handler with a text of its own does behind its test of the source
  abbrev own_or : Text → ℕ → ManagerHandler Page
  own_or msg len w t k = if k == 3 then web_mgr_send_msg supply w t k else send supply msg len w t

  own-PutsMessage :
      (msg : Text) (len : ℕ) (t : Tokens) (args : List Text)
      → length msg ≡ len
      → length args ≢ 1
      → str_eq sc_web t.source ≡ false
      → PutsMessage (own_or msg len) t (2 + length args) msg
  unfolding send
  own-PutsMessage msg len t args size other foreign =
      let (q', h', e, is') = put_lem msg in
      let without : (2 + length args == 3) ≡ false = ground (arith, other) in
      (q', h', rw (without, e, size) refl, is')

  argument-PutsMessage :
      (msg : Text) (len : ℕ) (t : Tokens) (a : Text) (more : List Text)
      → t.args ≡ (a ∷ []) ++ more
      → length (join b' ' (t.cmd ∷ a ∷ [])) < 1024
      → str_eq sc_web t.source ≡ false
      → PutsMessage (own_or msg len) t 3 (join b' ' (t.cmd ∷ a ∷ []))
  unfolding web_mgr_send_msg unless_web
  argument-PutsMessage msg len t a more tokens fits foreign =
      let (q', h', e, is') = tokens-PutsMessage t (a ∷ []) more tokens fits in
      (q', h', rw foreign e, is')

  number-Puts :
      (msg : Text) (t : Tokens) (k : ℕ)
      → Puts (unless_web supply (λ w t k. send supply msg (length msg) w t)) t k msg
  number-Puts msg t k =
      unless_web-Puts (λ w t k. send supply msg (length msg) w t) t k msg
        (λ foreign. send-PutsMessage msg t k)

  forwards :
      (t : Tokens) (args more : List Text)
      → t.args ≡ args ++ more
      → length (join b' ' (t.cmd ∷ args)) < 1024
      → (handler : ManagerHandler Page) × (some (web_mgr_send_msg supply) ≡ some handler)
        × Puts handler t (2 + length args) (join b' ' (t.cmd ∷ args))
  unfolding web_mgr_send_msg
  forwards t args more tokens fits = (
    web_mgr_send_msg supply,
    refl,
    unless_web-Puts (send_tokens supply) t (2 + length args) (join b' ' (t.cmd ∷ args))
        (λ foreign. tokens-PutsMessage t args more tokens fits),
  )

  -- The table has a handler for every command that has a message for the page. Where the message is shorter than
  -- 1024 bytes, calloc and strdup succeed and the queue is well formed, a command of another source, of whose tokens
  -- those that are counted and none behind them belong to the message, is put in front of the messages of the
  -- queue, which stays well formed, and the length of the message is returned; a command of the web server
  -- itself changes nothing.
  pub web_entries-Puts :
      (t : Tokens) (args more : List Text) {i : ℕ} {msg : Text}
      → MessageOf w i t.cmd args msg
      → t.args ≡ args ++ more
      → length msg < 1024
      → (handler : ManagerHandler Page) × (web_entries supply i ≡ some handler)
        × Puts handler t (2 + length args) msg
  unfolding web_mgr_send_msg web_mgr_send_start web_mgr_send_walk web_mgr_send_down
      web_mgr_send_turn web_mgr_send_bright
  web_entries-Puts t args more int_message tokens fits = forwards t args more tokens fits
  web_entries-Puts t args more stop_message tokens fits = forwards t args more tokens fits
  web_entries-Puts t args more fail_message tokens fits = forwards t args more tokens fits
  web_entries-Puts t args more ok_message tokens fits = forwards t args more tokens fits
  web_entries-Puts t args more msg_message tokens fits = forwards t args more tokens fits
  web_entries-Puts t args more reset_message tokens fits = forwards t args more tokens fits
  web_entries-Puts t args more (start_message {a = a}) tokens fits = (
    web_mgr_send_start supply,
    refl,
    unless_web-Puts (own_or (codes "start 0") 7) t 3 (join b' ' (t.cmd ∷ a ∷ []))
        (argument-PutsMessage (codes "start 0") 7 t a more tokens fits),
  )
  web_entries-Puts t args more (walk_message {a = a}) tokens fits = (
    web_mgr_send_walk supply,
    refl,
    unless_web-Puts (own_or (codes "walk 420") 8) t 3 (join b' ' (t.cmd ∷ a ∷ []))
        (argument-PutsMessage (codes "walk 420") 8 t a more tokens fits),
  )
  web_entries-Puts t args more (down_message {a = a}) tokens fits = (
    web_mgr_send_down supply,
    refl,
    unless_web-Puts (own_or (codes "down 15") 7) t 3 (join b' ' (t.cmd ∷ a ∷ []))
        (argument-PutsMessage (codes "down 15") 7 t a more tokens fits),
  )
  web_entries-Puts t args more (start_default other) tokens fits = (
    web_mgr_send_start supply,
    refl,
    unless_web-Puts (own_or (codes "start 0") 7) t (2 + length args) (codes "start 0")
        (own-PutsMessage (codes "start 0") 7 t args refl other),
  )
  web_entries-Puts t args more (walk_default other) tokens fits = (
    web_mgr_send_walk supply,
    refl,
    unless_web-Puts (own_or (codes "walk 420") 8) t (2 + length args) (codes "walk 420")
        (own-PutsMessage (codes "walk 420") 8 t args refl other),
  )
  web_entries-Puts t args more (down_default other) tokens fits = (
    web_mgr_send_down supply,
    refl,
    unless_web-Puts (own_or (codes "down 15") 7) t (2 + length args) (codes "down 15")
        (own-PutsMessage (codes "down 15") 7 t args refl other),
  )
  web_entries-Puts t args more turn_message tokens fits = (
    web_mgr_send_turn supply,
    refl,
    number-Puts (codes "turn " ++ print_int w.main.config.status.numero) t (2 + length args),
  )
  web_entries-Puts t args more bright_message tokens fits = (
    web_mgr_send_bright supply,
    refl,
    number-Puts (codes "bright " ++ print_int w.main.config.bright) t (2 + length args),
  )
