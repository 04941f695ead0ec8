-- ===== src/Ajax/Fields.antt =====
-- What a server is told of an event that ajax_put_event of src/ajax_curl.c puts: names and values.
use agility_contest_serial_c.Base.{
  ◌≡◌, refl, ap, Bool, true, Option, none, some, List, [], ◌∷◌, ◌++◌, if◌then◌else◌, ℤ, Text, codes,
  print_int, All, map,
}
use agility_contest_serial_c.Config.{Configuration, Status}
use agility_contest_serial_c.Tools.{get_session_name}
use agility_contest_serial_c.Events.{shown}
use agility_contest_serial_c.Ajax.{Extra, print_time}
use agility_contest_serial_c.Ajax.Bytes.{
  every, plain_char, value_char, plain-value, every-append, every-take, every_mono,
  print_time-plain, print_int-plain,
}
use agility_contest_serial_c.Ajax.Query.{
  Field, percent_decode, percent_decode-plain, IsField, decoded,
}

-- The texts that an event takes from the configuration hold only bytes that stand for themselves, and those of the
-- command are percent-encoded.
abbrev pub IsEncoded : Option Extra → Type 0
IsEncoded none = Unit
IsEncoded (some d) = (every value_char d.value ≡ true) × (every value_char d.oper ≡ true)

pub record IsPlain (c : Configuration) (type : Text) (extra : Option Extra) : Type 0 where
  pub server : every plain_char (shown c.ajax_server) ≡ true
  pub name : every plain_char c.client_name ≡ true
  pub kind : every plain_char type ≡ true
  pub encoded : IsEncoded extra

-- what the server is told of every event
abbrev pub event_fields : Configuration → Text → ℤ → List Field
event_fields c type now =
    (codes "Session", print_int c.status.session_id)
    ∷ (codes "Source", codes "chrono")
    ∷ (codes "Name", c.client_name)
    ∷ (codes "SessionName", get_session_name c.status.session_id c.client_name)
    ∷ (codes "Type", type)
    ∷ (codes "TimeStamp", print_time now)
    ∷ []

-- of the dog
abbrev pub dog_fields : Status → List Field
dog_fields s =
    (codes "Prueba", print_int s.prueba)
    ∷ (codes "Jornada", print_int s.jornada)
    ∷ (codes "Manga", print_int s.manga)
    ∷ (codes "Tanda", print_int s.tanda)
    ∷ (codes "Numero", print_int s.numero)
    ∷ (codes "Dorsal", print_int s.dorsal)
    ∷ (codes "Perro", print_int s.perro)
    ∷ (codes "Equipo", print_int s.equipo)
    ∷ (codes "Faltas", print_int s.faults)
    ∷ (codes "Tocados", print_int s.touchs)
    ∷ (codes "Rehuses", print_int s.refusals)
    ∷ (codes "Eliminado", print_int s.eliminated)
    ∷ (codes "Nopresentado", print_int s.notpresent)
    ∷ []

-- of the command, with its texts decoded
abbrev pub extra_fields : Option Extra → List Field
extra_fields none = (codes "Value", codes "0") ∷ []
extra_fields (some d) =
    (codes "Value", percent_decode d.value)
    ∷ (codes "Tiempo", print_time d.tiempo)
    ∷ (codes "Oper", percent_decode d.oper)
    ∷ (codes "stop", print_time d.stop)
    ∷ (codes "start", print_time d.start)
    ∷ []

-- the whole event
abbrev pub fields : Configuration → Text → Option Extra → Bool → ℤ → List Field
fields c type extra flag now =
    (codes "Operation", codes "chronoEvent") ∷ event_fields c type now
    ++ ((if flag then dog_fields c.status else []) ++ extra_fields extra)

-- what is printed of the command
abbrev pub raw_fields : Option Extra → List Field
raw_fields none = (codes "Value", codes "0") ∷ []
raw_fields (some d) =
    (codes "Value", d.value)
    ∷ (codes "Tiempo", print_time d.tiempo)
    ∷ (codes "Oper", d.oper)
    ∷ (codes "stop", print_time d.stop)
    ∷ (codes "start", print_time d.start)
    ∷ []

-- a name of letters and a value that stands for itself
abbrev pub IsPlainField : Field → Type 0
IsPlainField (key, value) = (IsField (key, [])) × (every plain_char value ≡ true)

module _ (key value : Text) (name : IsField (key, [])) (plain : every plain_char value ≡ true) where
  plain-IsField : IsField (key, value)
  plain-IsField = (name.0, name.1, every_mono plain_char value_char value plain-value plain)

pub All-IsField : (fs : List Field) → All IsPlainField fs → All IsField fs
All-IsField [] h = tt
All-IsField ((key, value) ∷ fs) h = (plain-IsField key value h.0.0 h.0.1, All-IsField fs h.1)

pub map-decoded : (fs : List Field) → All IsPlainField fs → map decoded fs ≡ fs
map-decoded [] h = refl
map-decoded ((key, value) ∷ fs) h =
    rw (percent_decode-plain value h.0.1) (ap (λ gs. (key, value) ∷ gs) (map-decoded fs h.1))

pub map-append : (fs gs : List Field) → map decoded (fs ++ gs) ≡ map decoded fs ++ map decoded gs
map-append [] gs = refl
map-append (f ∷ fs) gs = ap (λ hs. decoded f ∷ hs) (map-append fs gs)

pub map-decoded-parts :
    (fs gs hs : List Field) {hs' : List Field}
    → All IsPlainField fs
    → All IsPlainField gs
    → map decoded hs ≡ hs'
    → map decoded (fs ++ (gs ++ hs)) ≡ fs ++ (gs ++ hs')
map-decoded-parts fs gs hs hf hg last =
    rw (map-append fs (gs ++ hs), map-decoded fs hf, map-append gs hs, map-decoded gs hg, last) refl

pub session_name-plain :
    (session : ℤ) (name : Text)
    → every plain_char name ≡ true
    → every plain_char (get_session_name session name) ≡ true
unfolding get_session_name
session_name-plain session name h =
    let number =
      every-append plain_char (print_int session) (codes ":0:0:" ++ name) (print_int-plain session)
        h in
    every-take plain_char 1023 (codes "chrono:" ++ (print_int session ++ (codes ":0:0:" ++ name)))
      number

pub print_time-value : (z : ℤ) → every value_char (print_time z) ≡ true
print_time-value z =
    every_mono plain_char value_char (print_time z) plain-value (print_time-plain z)

pub event_fields-plain :
    (c : Configuration) (type : Text) (now : ℤ)
    → every plain_char c.client_name ≡ true
    → every plain_char type ≡ true
    → All IsPlainField (event_fields c type now)
event_fields-plain c type now name kind = (
  ((refl, refl, refl), print_int-plain c.status.session_id),
  (
    ((refl, refl, refl), refl),
    (
      ((refl, refl, refl), name),
      (
        ((refl, refl, refl), session_name-plain c.status.session_id c.client_name name),
        (((refl, refl, refl), kind), (((refl, refl, refl), print_time-plain now), tt)),
      ),
    ),
  ),
)

pub dog_fields-plain : (s : Status) → All IsPlainField (dog_fields s)
dog_fields-plain s =
    let i = print_int-plain in
    (
      ((refl, refl, refl), i s.prueba),
      (
        ((refl, refl, refl), i s.jornada),
        (
          ((refl, refl, refl), i s.manga),
          (
            ((refl, refl, refl), i s.tanda),
            (
              ((refl, refl, refl), i s.numero),
              (
                ((refl, refl, refl), i s.dorsal),
                (
                  ((refl, refl, refl), i s.perro),
                  (
                    ((refl, refl, refl), i s.equipo),
                    (
                      ((refl, refl, refl), i s.faults),
                      (
                        ((refl, refl, refl), i s.touchs),
                        (
                          ((refl, refl, refl), i s.refusals),
                          (
                            ((refl, refl, refl), i s.eliminated),
                            (((refl, refl, refl), i s.notpresent), tt),
                          ),
                        ),
                      ),
                    ),
                  ),
                ),
              ),
            ),
          ),
        ),
      ),
    )

pub raw_fields-IsField : (extra : Option Extra) → IsEncoded extra → All IsField (raw_fields extra)
raw_fields-IsField none h = ((refl, refl, refl), tt)
raw_fields-IsField (some d) h = (
  (refl, refl, h.0),
  (
    (refl, refl, print_time-value d.tiempo),
    (
      (refl, refl, h.1),
      ((refl, refl, print_time-value d.stop), ((refl, refl, print_time-value d.start), tt)),
    ),
  ),
)

pub map-raw_fields : (extra : Option Extra) → map decoded (raw_fields extra) ≡ extra_fields extra
map-raw_fields none = rw (percent_decode-plain (codes "0") refl) refl
map-raw_fields (some d) =
    rw
      (
        percent_decode-plain (print_time d.tiempo) (print_time-plain d.tiempo),
        percent_decode-plain (print_time d.stop) (print_time-plain d.stop),
        percent_decode-plain (print_time d.start) (print_time-plain d.start),
      )
      refl
