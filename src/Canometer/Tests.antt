-- ===== src/Canometer/Tests.antt =====
-- The theorems on the Canometer module, with a device that counts the requests.
use agility_contest_serial_c.Base.{
  ℕ, suc, ◌≡◌, refl, [], ◌∷◌, ◌++◌, none, some, true, false, pos, negsuc, Text, codes, atoi, strtol,
  wrap32, skip_space, isspace, isdigit, signed_digits, digits_from, print_int, print_nat,
  print_from, done, Returns, arith, inl, inr, strcase_eq, str_eq, tolower,
}
use agility_contest_serial_c.Config.{Configuration}
use agility_contest_serial_c.Tokens.{Tokens, ntokens}
use agility_contest_serial_c.Tools.{strhash, hash_from}
use agility_contest_serial_c.MainMgr.{Main, main_mgr_data}
use agility_contest_serial_c.Canometer.{
  Data, Setup, ReadXml, no_data, parse_status_xml, status_nodes, status_node, atoi_of,
}
use agility_contest_serial_c.Canometer.Link.{Put, sendrec, ask, requests, synchronize_chrono}
use agility_contest_serial_c.Canometer.Poll.{Canometer, module_read, agrees, data_line}
use agility_contest_serial_c.Canometer.Command.{module_write, synchronized, names}
use agility_contest_serial_c.Canometer.Steps.{synchronize_chrono-requests, synchronizing}
use agility_contest_serial_c.Canometer.Documents.{FullDocuments}
use agility_contest_serial_c.Canometer.Session.{IsFree, reads, writes, session, session-IsFree}
use agility_contest_serial_c.Canometer.Deadlock.{module_write-blocks}
use agility_contest_serial_c.Canometer.Converge.{data_line-converges}
use agility_contest_serial_c.Samples.{config_0, main_0, tokens_of}

abbrev document : Text
document = codes "<xml/>document"

-- a device that answers every request, and counts them
abbrev answers : Put ℕ
answers url posted n = (some document, suc n)

-- a device that cannot be reached: the answer is empty, and no document
abbrev silent : Put ℕ
silent url posted n = (some [], suc n)

abbrev no_document : ReadXml
no_document xml = none

-- a parser that finds the faults 2 in every document
abbrev two_faults : ReadXml
two_faults xml = some ((codes "faults", some (codes "2")) ∷ [])

two_faults-Full : FullDocuments two_faults
two_faults-Full xml [] e = tt
two_faults-Full xml ((name, none) ∷ nodes) e = cc e
two_faults-Full xml ((name, some s) ∷ []) e = (tt, tt)
two_faults-Full xml ((name, some s) ∷ n ∷ nodes) e = cc e

abbrev setup_0 : Setup
setup_0 = record {
  brightness = none;
  precision = none;
  guardtime = pos 0;
  walktime = pos 0;
  walkstyle = none;
  ring = pos 1;
}

abbrev module_0 : Canometer ℕ
module_0 = record { cw_data = no_data; cw_config = setup_0; sem = 1; net = 0 }

abbrev two : Data
two = record no_data { faltas = pos 2 }

two_parsed : parse_status_xml two_faults no_data document ≡ done (some two)
unfolding parse_status_xml status_nodes status_node strhash hash_from atoi_of atoi strtol skip_space
    isspace isdigit signed_digits digits_from wrap32
two_parsed = refl

two_answered : (sendrec answers config_0 (ask (codes "xml")) 0).0 ≡ some document
unfolding sendrec
two_answered = refl

synchronize_chrono-requests_example :
    synchronize_chrono answers two_faults config_0 no_data 0
    ≡ done (
      pos 0,
      record no_data {
        eliminado = config_0.status.eliminated;
        rehuses = config_0.status.refusals;
        faltas = config_0.status.faults;
      },
      requests answers config_0
          (synchronizing answers config_0.status two)
          (sendrec answers config_0 (ask (codes "xml")) 0).1,
    )
synchronize_chrono-requests_example =
    synchronize_chrono-requests answers two_faults config_0 no_data two document 0 two_answered
      (omega arith) two_parsed

abbrev start_tokens : Tokens
start_tokens = tokens_of (codes "console") (codes "start") (codes "0" ∷ [])

not_synchronized : names synchronized (codes "start") ≡ false
unfolding strcase_eq str_eq tolower
not_synchronized = refl

not_walk : strcase_eq (codes "walk") (codes "start") ≡ false
unfolding strcase_eq str_eq tolower
not_walk = refl

session-IsFree_example : Returns (IsFree answers two_faults) (
    session answers two_faults
      (record { curl = true; soap = true })
      config_0
      module_0
      (reads config_0 [] 500 ∷ writes config_0 start_tokens 3 ∷ reads config_0 [] 500 ∷ []))
session-IsFree_example =
    session-IsFree answers two_faults two_faults-Full (record { curl = true; soap = true }) config_0
      module_0 (reads config_0 [] 500 ∷ writes config_0 start_tokens 3 ∷ reads config_0 [] 500 ∷ [])
      (tt, ((not_synchronized, inl not_walk), (tt, tt)))

unreachable : (sendrec silent config_0 (ask (codes "xml")) 0).0 ≡ some []
unfolding sendrec
unreachable = refl

module_write-blocks_example :
    (m' : Canometer ℕ) × (module_write silent no_document config_0 module_0
        (tokens_of (codes "web") (codes "data") [])
        2
      ≡ done (some (negsuc 0, m')))
    × ((c' : Configuration) (buffer : Text) (size : ℕ)
        → module_read silent no_document c' buffer size m' ≡ done none)
    × ((c' : Configuration) (t' : Tokens) (n' : ℕ)
        → module_write silent no_document c' m' t' n' ≡ done none)
module_write-blocks_example =
    module_write-blocks silent no_document 3 2 config_0 (tokens_of (codes "web") (codes "data") [])
      module_0 refl refl (inr ([], unreachable, refl))

abbrev touched : Main
touched = record main_0 {
  config = record config_0 { status = record config_0.status { touchs = pos 1 } };
}

abbrev data_tokens : Tokens
data_tokens = tokens_of (codes "network") (codes "data") (codes "2:0:0" ∷ [])

two_line : data_line two ≡ codes "DATA " ++ codes "2:0:0"
unfolding data_line print_int print_nat print_from
two_line = refl

data_line-converges_example :
    (m' : Main) × (main_mgr_data touched data_tokens (ntokens data_tokens) ≡ done (pos 0, m'))
    × (agrees m'.status two ≡ true)
data_line-converges_example =
    data_line-converges touched two 2 0 0 1 refl refl refl refl (omega arith) (omega arith)
      (omega arith) (omega arith) data_tokens (codes "2:0:0") [] two_line refl
