-- ===== src/Profile/Tests.antt =====
-- Small profiles, run.
use iot_lab_gateway.Prelude.{◌≡◌, refl, [], ◌∷◌, some, false}
use iot_lab_gateway.Prelude.Int.{pos}
use iot_lab_gateway.Json.{Json, null, flag, number, text, obj, arr, nil, cons, Fields, end, field}
use iot_lab_gateway.Effects.{value_error}
use iot_lab_gateway.Profile.{from_dict, valid, failed}

abbrev sniffer : Fields
sniffer = field "mode" (text "sniffer") (field "channels" (arr (cons (number (pos 11)) nil)) end)

abbrev given : Json → Json
given period = obj (
    field "profilename" (text "p") (
      field "power" (text "dc") (
        field "radio" (obj sniffer) (
          field "consumption" (obj (field "period" period (field "average" (number (pos 64)) end)))
            end))))

from_dict-given :
    from_dict "5V" (given (text " 588 "))
    ≡ valid (
        some (record {
          profilename = text "p";
          power = text "dc";
          consumption = some (record {
            source = "5V";
            period = 588;
            average = 64;
            power = flag false;
            voltage = flag false;
            current = flag false;
          });
          radio = some (record {
            mode = text "sniffer";
            channels = 11 ∷ [];
            period = number (pos 0);
            num_per_channel = null;
          });
        }))
unfolding from_dict
from_dict-given = refl

from_dict-refused : from_dict "5V" (given (number (pos 589))) ≡ failed value_error
unfolding from_dict
from_dict-refused = refl
