-- ===== src/Tts/Diagnostics.antt =====
-- frontend/src/lib/tts-diagnostics.ts: the filter on recorded details, the ring of two hundred
-- events and the summary. Numbers that are not finite are a value of their own; the storage flag
-- and the clock are arguments, and so is the test of the event's name (a regular expression).
pub mod Privacy
use z_reader.Prelude.{
  ℕ, ◌+◌, ◌-◌, String, str_eq, Bool, true, false, not, ◌&&◌, Option, none, some, List, [], ◌∷◌,
  ◌++◌, if◌then◌else◌, ltb, length, filter, drop, any,
}

-- `DiagnosticValue`; `missing` is `null` or `undefined`. A finite number is scaled to whole units
-- with its sign apart.
pub data DiagnosticValue : Type 0 where
  text : String → DiagnosticValue
  finite : Bool → ℕ → DiagnosticValue
  not_finite : DiagnosticValue
  flag : Bool → DiagnosticValue
  missing : DiagnosticValue

abbrev pub Detail : Type 0
Detail = List (String × DiagnosticValue)

abbrev pub member : String → List String → Bool
member k ks = any (λ j. str_eq j k) ks

abbrev pub numeric_fields : List String
numeric_fields =
    "time" ∷ "duration" ∷ "readyState" ∷ "requestId" ∷ "code" ∷ "latencyMs" ∷ "gapMs" ∷ "seconds"
    ∷ "chunks" ∷ "attempt" ∷ "delayMs" ∷ "ssmlBytes" ∷ "bytes" ∷ "averageLatencyMs"
    ∷ "estimatedSeconds" ∷ "ratio" ∷ "preloaded" ∷ "queued" ∷ "activePreloads" ∷ []

abbrev pub boolean_fields : List String
boolean_fields = "paused" ∷ "ended" ∷ "replacing" ∷ "continuous" ∷ []

-- `ENUM_FIELDS[key]`; a key that is not in the table has no values.
unfoldable pub enum_fields : String → List String
enum_fields key =
    if str_eq key "state"
    then "stopped" ∷ "playing" ∷ "paused" ∷ []
    else if str_eq key "source"
    then "cache" ∷ "preload" ∷ "network" ∷ []
    else if str_eq key "name"
    then "NotAllowedError" ∷ "NotSupportedError" ∷ "AbortError" ∷ "TimeoutError" ∷ "Error"
      ∷ "TypeError" ∷ "unknown" ∷ []
    else if str_eq key "kind"
    then "cancelled" ∷ "timeout" ∷ "network" ∷ "rate-limit" ∷ "invalid-ssml" ∷ "unauthorized"
      ∷ "permission" ∷ "transient" ∷ "permanent" ∷ []
    else []

abbrev pub is_finite : DiagnosticValue → Bool
is_finite (finite s n) = true
is_finite _ = false

abbrev pub is_flag : DiagnosticValue → Bool
is_flag (flag b) = true
is_flag _ = false

abbrev pub is_listed : List String → DiagnosticValue → Bool
is_listed values (text s) = member s values
is_listed values _ = false

-- The test of `safeDetail` on one entry.
unfoldable pub is_safe : String → DiagnosticValue → Bool
unfolding enum_fields
is_safe key v =
    if member key numeric_fields
    then is_finite v
    else if member key boolean_fields
    then is_flag v
    else is_listed (enum_fields key) v

unfoldable pub safe_detail : Detail → Detail
unfolding is_safe
safe_detail detail = filter (λ e. is_safe e.0 e.1) detail

pub record Diagnostic : Type 0 where
  pub timestamp : ℕ
  pub event : String
  pub detail : Detail

abbrev pub ring_size : ℕ
ring_size = 200

-- `recordTTSDiagnostic` on the ring; `enabled` is the flag of the local storage, `named` the test
-- of the name.
unfoldable pub record_tts_diagnostic :
    Bool → (String → Bool) → ℕ → String → Detail → List Diagnostic → List Diagnostic
unfolding safe_detail
record_tts_diagnostic enabled named now event detail entries =
    if not enabled
    then entries
    else if not (named event)
    then entries
    else let entries' =
        entries ++ (record { timestamp = now; event = event; detail = safe_detail detail }) ∷ [] in
      if ltb ring_size (length entries')
      then drop (length entries' - ring_size) entries'
      else entries'

pub record Summary : Type 0 where
  pub first_audio_latency_ms : List ℕ
  pub chunk_gap_ms : List ℕ
  pub buffer_miss_count : ℕ
  pub retry_count : ℕ
  pub recovery_success_count : ℕ
  pub buffer_ready_seconds : List ℕ

abbrev pub empty_summary : Summary
empty_summary = record {
  first_audio_latency_ms = [];
  chunk_gap_ms = [];
  buffer_miss_count = 0;
  retry_count = 0;
  recovery_success_count = 0;
  buffer_ready_seconds = [];
}

abbrev pub field_of : String → Detail → DiagnosticValue
field_of k [] = missing
field_of k ((j, v) ∷ d) = if str_eq j k then v else field_of k d

-- `addSample`: a finite number that is not negative; `finite true n` is -n.
abbrev pub add_sample : List ℕ → DiagnosticValue → List ℕ
add_sample samples (finite false n) = samples ++ n ∷ []
add_sample samples _ = samples

-- One round of the loop of `summarizeTTSDiagnostics`.
unfoldable pub summarize_event : Summary → Diagnostic → Summary
summarize_event s d =
    if str_eq d.event "first-audio"
    then record s {
      first_audio_latency_ms = add_sample s.first_audio_latency_ms (field_of "latencyMs" d.detail);
    }
    else if str_eq d.event "chunk-gap"
    then record s { chunk_gap_ms = add_sample s.chunk_gap_ms (field_of "gapMs" d.detail) }
    else if str_eq d.event "buffer-miss"
    then record s { buffer_miss_count = s.buffer_miss_count + 1 }
    else if str_eq d.event "request-retry"
    then record s { retry_count = s.retry_count + 1 }
    else if str_eq d.event "recovery-success"
    then record s { recovery_success_count = s.recovery_success_count + 1 }
    else if str_eq d.event "buffer-ready"
    then record s {
      buffer_ready_seconds = add_sample s.buffer_ready_seconds (field_of "seconds" d.detail);
    }
    else s

unfoldable pub summarize_from : Summary → List Diagnostic → Summary
unfolding summarize_event
summarize_from s [] = s
summarize_from s (d ∷ ds) = summarize_from (summarize_event s d) ds

unfoldable pub summarize_tts_diagnostics : List Diagnostic → Summary
unfolding summarize_from
summarize_tts_diagnostics events = summarize_from empty_summary events
