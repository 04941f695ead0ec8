-- ===== src/Qrcode/Thread.antt =====
-- src/qrcode_mgr.c, the thread around its loop: finding and opening the port of the reader, and closing it.
use agility_contest_serial_c.Base.{
  wrap32, Bool, true, false, Option, none, some, List, [], ◌∷◌, ◌++◌, if◌then◌else◌, ℤ, pos, ◌+ℤ◌,
  Text, codes, strcase_eq, Run, done, ◌>>=◌,
}
use agility_contest_serial_c.Config.{Configuration, Port}
use agility_contest_serial_c.SerialPort.{
  Libserialport, SpCall, gets, opens, closes, read_only, sets_all, settings,
}
use agility_contest_serial_c.Qrcode.{Round, qr_loop}

-- connectUDP, libserialport, and whether both calls of calloc succeed
pub record Host : Type 0 where
  pub connect_udp : Text → ℤ → Bool
  pub sp : Libserialport
  pub calloc : Bool

-- What the start leaves: the calls of libserialport that succeeded, the configuration, and whether the loop is
-- entered.
pub record Begun : Type 0 where
  pub calls : List SpCall
  pub config : Configuration
  pub enters : Bool

abbrev pub returns : List SpCall → Configuration → Begun
returns calls c = record { calls = calls; config = c; enters = false }

abbrev pub with_qrcode_port : Option Port → Configuration → Configuration
with_qrcode_port port c = record c { qrcode_port = port }

-- behind sp_open
unfoldable pub judge_open : Bool → Bool → Port → Configuration → Begun
judge_open calloc false p c = returns (gets p ∷ []) c
judge_open calloc true p c = record {
  calls = gets p ∷ opens p read_only ∷ sets_all (some p) (settings (pos 115200));
  config = c;
  enters = calloc;
}

-- behind sp_get_port_by_name
unfoldable pub judge_port : Host → Option Port → Configuration → Begun
unfolding judge_open
judge_port host none c = returns [] (with_qrcode_port none c)
judge_port host (some p) c =
    judge_open host.calloc (host.sp.sp_open p read_only) p (with_qrcode_port (some p) c)

unfoldable pub begin : Host → Configuration → Begun
unfolding judge_port strcase_eq ◌+ℤ◌ wrap32
begin host c =
    if host.connect_udp (codes "localhost") (wrap32 (c.local_port +ℤ c.ring))
    then if strcase_eq c.qrcomm_port (codes "none")
      then returns [] c
      else judge_port host (host.sp.sp_get_port_by_name (some c.qrcomm_port)) c
    else returns [] c

-- qrcode_mgr_exit: the calls and the configuration
unfoldable pub qrcode_mgr_exit : Configuration → List SpCall × Configuration
qrcode_mgr_exit c = elim c.qrcode_port [
  | none ↦ ([], c)
  | some p ↦ (closes p ∷ [], with_qrcode_port none c)
]

-- the calls, the datagrams, and whether the thread runs behind the rounds
pub record Ran : Type 0 where
  pub calls : List SpCall
  pub config : Configuration
  pub datagrams : List Text
  pub runs : Bool

unfoldable pub behind_loop : Begun → List Text → Bool → Ran
unfolding qrcode_mgr_exit
behind_loop s sent true = record {
  calls = s.calls;
  config = s.config;
  datagrams = sent;
  runs = true;
}
behind_loop s sent false =
    let (closing, c) = qrcode_mgr_exit s.config in
    record { calls = s.calls ++ closing; config = c; datagrams = sent; runs = false }

abbrev pub not_begun : Begun → Ran
not_begun s = record { calls = s.calls; config = s.config; datagrams = []; runs = false }

-- qrcode_manager_thread, where nothing was read yet
unfoldable pub manager_thread : Host → Configuration → List Round → Run Ran
unfolding begin qr_loop behind_loop
manager_thread host c rounds =
    let s = begin host c in
    if s.enters
    then (do (sent, on) ← qr_loop (pos 0, pos 0) rounds; done (behind_loop s sent on))
    else done (not_begun s)
