-- ===== src/Tests/Codec/Instances.antt =====
-- The codec for JSON values, which hold no byte strings, and the one for MessagePack, whose do.
use cairndb.Prelude.{ℕ, ◌≤◌, Text, Bytes, ◌≡◌, refl, Option, none, some, [], ◌∷◌, arith, length}
use cairndb.Core.Log.{MsgPack}
use cairndb.Core.Value.{Codec}
use cairndb.Tests.Codec.{
  put_text, take_text, take_text-put_text, length-put_text, dumps, loads, loads-dumps,
}

pub no_raw : ⊥ → Bytes → Bytes
no_raw x k = absurd x

pub no_raws : Bytes → Option (⊥ × Bytes)
no_raws k = none

pub no_growth : (x : ⊥) (k : Bytes) → length k ≤ length (no_raw x k)
no_growth x k = absurd x

pub no_back : (x : ⊥) (k : Bytes) → no_raws (no_raw x k) ≡ some (x, k)
no_back x k = absurd x

pub to_iso : ℕ → Text
to_iso t = t ∷ []

pub from_iso : Text → Option ℕ
from_iso [] = none
from_iso (t ∷ ts) = some t

pub from_iso-to_iso : (t : ℕ) → from_iso (to_iso t) ≡ some t
unfolding from_iso to_iso
from_iso-to_iso t = refl

abbrev pub codec : Codec
codec = record {
  dumps = dumps no_raw no_raws no_growth no_back;
  loads = loads no_raw no_raws no_growth no_back;
  to_iso = to_iso;
  from_iso = from_iso;
  loads-dumps = loads-dumps no_raw no_raws no_growth no_back;
  from_iso-to_iso = from_iso-to_iso;
}

-- Byte strings are written as texts are.
pub text_growth : (x : Bytes) (k : Bytes) → length k ≤ length (put_text x k)
text_growth x k = omega (arith, length-put_text x k)

abbrev pub msgpack : MsgPack
msgpack = record {
  packb = dumps put_text take_text text_growth take_text-put_text;
  unpackb = loads put_text take_text text_growth take_text-put_text;
  unpackb-packb = loads-dumps put_text take_text text_growth take_text-put_text;
}
