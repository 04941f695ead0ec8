-- ===== src/Ajax/Address.antt =====
-- The address that ajax_put_event of src/ajax_curl.c asks for, and what a server reads from it.
use agility_contest_serial_c.Base.{
  ◌<◌, ◌≡◌, refl, ◌∙◌, ap, Bool, true, false, Option, none, some, List, [], ◌∷◌, ◌++◌, append_assoc,
  ltb, if◌then◌else◌, ℤ, pos, negsuc, Text, codes, length, All, All-append, map, done, arith,
}
use agility_contest_serial_c.Config.{Configuration, Status}
use agility_contest_serial_c.Events.{shown}
use agility_contest_serial_c.Ajax.{
  Extra, print_event, print_dog, print_extra, operation, address, url_buffsize, Curl,
  ajax_put_event,
}
use agility_contest_serial_c.Ajax.Bytes.{every, plain_char, every-append}
use agility_contest_serial_c.Ajax.Query.{
  Field, query, percent_decode-plain, parameters, IsField, decoded, query-parameters,
}
use agility_contest_serial_c.Ajax.Fields.{
  IsPlain, event_fields, dog_fields, fields, raw_fields, IsPlainField, All-IsField,
  map-decoded-parts, event_fields-plain, dog_fields-plain, raw_fields-IsField, map-raw_fields,
}

print_event-parameters :
    (c : Configuration) (type : Text) (now : ℤ) (fs : List Field)
    → print_event c type now (parameters fs) ≡ parameters (event_fields c type now ++ fs)
unfolding print_event parameters
print_event-parameters c type now fs = refl

print_dog-parameters :
    (s : Status) (fs : List Field) → print_dog s (parameters fs) ≡ parameters (dog_fields s ++ fs)
unfolding print_dog parameters
print_dog-parameters s fs = refl

print_extra-parameters : (extra : Option Extra) → print_extra extra ≡ parameters (raw_fields extra)
unfolding print_extra parameters
print_extra-parameters none = refl
print_extra-parameters (some d) = refl

-- what stands in front of the question mark
abbrev page_of : Configuration → Text
page_of c =
    codes "https://" ++ shown c.ajax_server ++ codes "/agility/ajax/database/eventFunctions.php"

abbrev operation_field : Field
operation_field = (codes "Operation", codes "chronoEvent")

operation-page :
    (c : Configuration) (ps : Text)
    → operation c ++ ps
      ≡ page_of c ++ b'?' ∷ ((operation_field.0 ++ b'=' ∷ operation_field.1) ++ ps)
unfolding operation
operation-page c ps =
    let server = codes "https://" ++ shown c.ajax_server in
    rw
      (
        append_assoc server
            (codes "/agility/ajax/database/eventFunctions.php?Operation=chronoEvent") ps,
        append_assoc server (codes "/agility/ajax/database/eventFunctions.php")
            (codes "?Operation=chronoEvent" ++ ps),
      )
      refl

module _ (c : Configuration) (type : Text) (extra : Option Extra) (now : ℤ) where
  -- the parameters behind the operation
  abbrev printed : Bool → List Field
  printed flag =
      event_fields c type now ++ ((if flag then dog_fields c.status else []) ++ raw_fields extra)

  address-parameters :
      (flag : Bool) → address c type extra flag now ≡ operation c ++ parameters (printed flag)
  unfolding address
  address-parameters true =
      rw
        (
          print_extra-parameters extra,
          print_dog-parameters c.status (raw_fields extra),
          print_event-parameters c type now (dog_fields c.status ++ raw_fields extra),
        )
        refl
  address-parameters false =
      rw (print_extra-parameters extra, print_event-parameters c type now (raw_fields extra)) refl

  module _ (p : IsPlain c type extra) where
    event-plain : All IsPlainField (event_fields c type now)
    event-plain = event_fields-plain c type now p.name p.kind

    dog-plain : (flag : Bool) → All IsPlainField (if flag then dog_fields c.status else [])
    dog-plain true = dog_fields-plain c.status
    dog-plain false = tt

    printed-IsField : (flag : Bool) → All IsField (printed flag)
    printed-IsField flag =
        let dog = if flag then dog_fields c.status else [] in
        All-append IsField (event_fields c type now) (dog ++ raw_fields extra)
          (All-IsField (event_fields c type now) event-plain)
          (All-append IsField dog (raw_fields extra) (All-IsField dog (dog-plain flag))
            (raw_fields-IsField extra p.encoded))

    decoded-printed :
        (flag : Bool) → map decoded (operation_field ∷ printed flag) ≡ fields c type extra flag now
    decoded-printed flag = rw (percent_decode-plain (codes "chronoEvent") refl) (
        ap (λ fs. operation_field ∷ fs)
          (map-decoded-parts (event_fields c type now) (if flag then dog_fields c.status else [])
            (raw_fields extra) event-plain (dog-plain flag) (map-raw_fields extra)))

    page-plain : every plain_char (page_of c) ≡ true
    page-plain =
        every-append plain_char (codes "https://" ++ shown c.ajax_server)
          (codes "/agility/ajax/database/eventFunctions.php")
          (every-append plain_char (codes "https://") (shown c.ajax_server) refl p.server) refl

    pub query-fields :
        (flag : Bool) → query (address c type extra flag now) ≡ some (fields c type extra flag now)
    query-fields flag =
        rw (address-parameters flag, operation-page c (parameters (printed flag)))
          (query-parameters (page_of c) operation_field (printed flag) page-plain
              ((refl, refl, refl), printed-IsField flag)
            ∙ ap (λ fs. some fs) (decoded-printed flag))

pub ajax_put_event-query :
    {N : Type 0} (curl : Curl N) (c : Configuration) (type : Text) (extra : Option Extra)
    (flag : Bool) (net : N)
    → IsPlain c type extra
    → length (address c type extra flag (curl.time net)) < url_buffsize
    → curl.curl_easy_init net ≡ true
    → (url : Text) × (ajax_put_event curl c type extra flag net
        ≡ done (
          if (curl.curl_easy_perform url net).0 then pos 0 else negsuc 0,
          (curl.curl_easy_perform url net).1,
        ))
      × (query url ≡ some (fields c type extra flag (curl.time net)))
unfolding ajax_put_event
ajax_put_event-query curl c type extra flag net p fits init =
    let url = address c type extra flag (curl.time net) in
    let small : ltb (length url) url_buffsize ≡ true = ground (arith, fits) in
    (url, rw (small, init) (ground arith), query-fields c type extra (curl.time net) p flag)
