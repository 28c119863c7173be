-- ===== src/Proxy/StreamMeter.antt =====
-- internal/proxy/stream_meter.go: the copy of a provider's stream to the client, line by line, with
-- the usage that it reports. The source is a list of events, one for each call of ReadBytes, with
-- what the clock and the request's context show before and after it. Decoding a chunk's JSON is a
-- parameter.
pub mod Cap
pub mod Copy
pub mod Pass
use quarkgate.Json.{Fields, Raw, Value, as_map, get}
use quarkgate.Models.{Time}
use quarkgate.Prelude.{
  Bool, Option, Text, [], codes, drop, false, has_prefix, if◌then◌else◌, is_empty, leb, length,
  ltb_ℤ, nat_beq, none, pos, some, true, wrap64, ℕ, ℤ, ◌&&◌, ◌*ℤ◌, ◌+ℤ◌, ◌/◌, ◌==◌, ◌||◌, ◌∷◌,
  nat_eq, text_eq, int_eq,
}

-- `json.Unmarshal` of a chunk into a map.
abbrev pub Decode : Type 0
Decode = Text → Raw Fields

pub record MeteringReader : Type 0 where
  pub idle_sec : ℤ
  pub max_stream : Time
  pub written : Text
  pub usage : Option Fields
  pub body : Text
  pub data_chunks : ℤ
  pub est_output : ℤ
  pub hold_micro : ℤ
  pub soft_cap_exceeded : Bool

-- newMeteringReader; `written` is what the client has been sent.
unfoldable pub new_metering_reader : ℤ → Time → ℤ → MeteringReader
new_metering_reader idle_sec max_stream hold_micro = record {
  idle_sec = idle_sec;
  max_stream = max_stream;
  written = [];
  usage = none;
  body = [];
  data_chunks = pos 0;
  est_output = pos 0;
  hold_micro = hold_micro;
  soft_cap_exceeded = false;
}

-- The ASCII white space of `strings.TrimSpace`.
abbrev pub is_space : ℕ → Bool
is_space c = (leb 9 c && leb c 13) || nat_beq c 32

unfoldable pub trim_left : Text → Text
trim_left [] = []
trim_left (c ∷ s) = let rest = trim_left s in if is_space c then rest else c ∷ s

unfoldable pub trim_right : Text → Text
trim_right [] = []
trim_right (c ∷ s) = let rest = trim_right s in if is_space c && is_empty rest then [] else c ∷ rest

unfoldable pub trim_space : Text → Text
unfolding trim_left trim_right
trim_space s = trim_left (trim_right s)

abbrev pub data_prefix : Text
data_prefix = codes "data: "

abbrev pub done_mark : Text
done_mark = codes "[DONE]"

-- The first half of parseLine: the payload of a `data: ` line that is not the end mark.
unfoldable pub payload : Text → Option Text
payload line =
    let s = trim_space line in
    if has_prefix s data_prefix
    then (let rest = drop 6 s in if rest == done_mark then none else some rest)
    else none

-- The counts of a chunk, and the soft cap.
unfoldable pub count_chunk : Text → MeteringReader → MeteringReader
count_chunk chunk m =
    let est = wrap64 (m.est_output +ℤ pos (length chunk / 4)) in
    record m {
      data_chunks = wrap64 (m.data_chunks +ℤ pos 1);
      est_output = est;
      soft_cap_exceeded =
          if ltb_ℤ (pos 0) m.hold_micro && ltb_ℤ m.hold_micro (wrap64 (est *ℤ pos 900))
          then true
          else m.soft_cap_exceeded;
    }

-- The usage that a chunk reports, if it is a JSON object with a map `usage`.
unfoldable pub read_usage : Decode → Text → MeteringReader → MeteringReader
read_usage decode chunk m = elim (decode chunk) [
  | none ↦ m
  | some fields ↦ elim (as_map (get (codes "usage") fields)) [
    | none ↦ m
    | some usage ↦ record m { usage = some usage }
  ]
]

parse_payload : Decode → Option Text → MeteringReader → MeteringReader
parse_payload decode none m = m
parse_payload decode (some chunk) m = read_usage decode chunk (count_chunk chunk m)

-- parseLine
unfoldable pub parse_line : Decode → Text → MeteringReader → MeteringReader
unfolding parse_payload
parse_line decode line m = parse_payload decode (payload line) m

-- finalizeUsage
unfoldable pub finalize_usage : MeteringReader → MeteringReader
finalize_usage m = elim m.usage [
  | some _ ↦ m
  | none ↦
      if ltb_ℤ (pos 0) m.data_chunks
      then record m {
        usage = some (
            Fields.field (codes "output_tokens") (Value.int64 m.est_output) (
              Fields.field (codes "input_tokens") (Value.int (pos 0)) (
                Fields.field (codes "fallback") (Value.str (codes "chunk_estimate"))
                  Fields.empty)));
      }
      else m
]

-- parseJSONUsage
unfoldable pub parse_json_usage : Raw Fields → Option Fields
parse_json_usage none = none
parse_json_usage (some v) = elim (as_map (get (codes "usage") v)) [
  | some usage ↦ some usage
  | none ↦ some v
]
