-- ===== src/Gateway/Headers.antt =====
-- The header of a response: the calls that a handler makes on its writer, and what the recorder of
-- internal/gateway/idempotency.go keeps of them.
use quarkgate.Gateway.{HeaderCall, add_header, set_header}
use quarkgate.Prelude.{
  Dict, List, Text, [], insert, lookup, none, some, ◌++◌, ◌∷◌, nat_eq, text_eq, int_eq,
}

-- An http.Header: the values under each name.
abbrev pub HeaderMap : Type 0
HeaderMap = Dict Text (List Text)

abbrev pub values_of : Text → HeaderMap → List Text
values_of k h = elim (lookup k h) [ none ↦ [] | some vs ↦ vs ]

-- `canonical` is the spelling under which an http.Header keeps a name.
module _ (canonical : Text → Text) where
  -- One call on an http.Header
  unfoldable pub apply_call : HeaderCall → HeaderMap → HeaderMap
  apply_call (set_header k v) h = insert (canonical k) (v ∷ []) h
  apply_call (add_header k v) h = insert (canonical k) (values_of (canonical k) h ++ v ∷ []) h

  unfoldable pub apply_calls : List HeaderCall → HeaderMap → HeaderMap
  apply_calls [] h = h
  apply_calls (c ∷ cs) h = apply_calls cs (apply_call c h)

  -- The loop of idempotencyRecorder.Header: the first value of each header.
  unfoldable pub snapshot : HeaderMap → Dict Text Text → Dict Text Text
  snapshot [] kept = kept
  snapshot ((k, []) ∷ h) kept = snapshot h kept
  snapshot ((k, v ∷ vs) ∷ h) kept = snapshot h (insert k v kept)

  -- The headers that the recorder keeps: each call of Header takes its snapshot before its caller
  -- changes the map.
  unfoldable pub record_calls : List HeaderCall → HeaderMap → Dict Text Text → Dict Text Text
  record_calls [] h kept = kept
  record_calls (c ∷ cs) h kept = record_calls cs (apply_call c h) (snapshot h kept)
