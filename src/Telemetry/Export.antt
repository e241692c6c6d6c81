-- ===== src/Telemetry/Export.antt =====
-- telemetry.rs: a trace sent to its collector. The network, the random bytes and the name of the
-- host are the parameter `Net`; the version is that of the build.
use marstack_container.Prelude.{
  ℕ, ◌+◌, ◌-◌, ◌/◌, ◌%◌, ◌||◌, ltb, Bool, true, Option, none, some, List, [], ◌∷◌, ◌++◌, is_empty,
  if◌then◌else◌,
}
use marstack_container.Std.Text.{Text, codes, strip_prefix, lines}
use marstack_container.Std.Decimal.{to_string}
use marstack_container.Error.{ok, invalid}
use marstack_container.Exec.{Exec, pure, lift, gets, guard, ◌>>=◌, ◌>>◌}
use marstack_container.Os.{Os, Answer, call}
use marstack_container.Rootfs.Overlay.Mount.{utf8_bytes}
use marstack_container.Sync.{Phase}
use marstack_container.Telemetry.{Recorder, take}
use marstack_container.Telemetry.Payload.{span, body}
use marstack_container.Telemetry.Endpoint.{split_endpoint}

-- A connection is a handle. What is read from it to its end or to an error comes as text. Bytes are
-- read from /dev/urandom.
pub record Net (os : Os) : Type 0 where
  pub connect : Text → os.World → Answer ℕ × os.World
  pub set_timeouts : ℕ → os.World → os.World
  pub write_all : ℕ → Text → os.World → Answer (Unit {0}) × os.World
  pub read_to_end : ℕ → os.World → Text × os.World
  pub random : ℕ → os.World → Answer (List ℕ) × os.World
  pub gethostname : os.World → Option Text

unfoldable pub hex_digit : ℕ → ℕ
hex_digit d = if ltb d 10 then b'0' + d else b'a' + (d - 10)

-- Two digits a byte.
unfoldable pub hex : List ℕ → Text
unfolding hex_digit
hex [] = []
hex (b ∷ bs) = hex_digit (b / 16) ∷ hex_digit (b % 16) ∷ hex bs

-- `s.contains(part)`.
unfoldable pub has_part : Text → Text → Bool
has_part part [] = is_empty part
has_part part (c ∷ cs) =
    let rest = has_part part cs in elim (strip_prefix part (c ∷ cs)) [ none ↦ rest | some _ ↦ true ]

unfoldable pub first_line : List Text → Text
first_line [] = []
first_line (l ∷ ls) = l

unfoldable pub is_accepted : Text → Bool
unfolding has_part
is_accepted status =
    has_part (codes " 200") status
    || has_part (codes " 202") status
    || has_part (codes " 204") status

unfoldable pub request : Text → Text → Text → Text
request path host_port content =
    codes "POST "
    ++ (path
        ++ (codes " HTTP/1.1\r\nHost: "
            ++ (host_port
                ++ (codes "\r\nContent-Type: application/json\r\nContent-Length: "
                    ++ (to_string (utf8_bytes content)
                        ++ (codes "\r\nConnection: close\r\n\r\n" ++ content))))))

-- The latest end.
unfoldable pub latest : List Phase → ℕ
latest [] = 0
latest (p ∷ ps) = let rest = latest ps in if ltb p.end_us rest then rest else p.end_us

abbrev pub or_no_name : Option Text → Text
or_no_name none = []
or_no_name (some t) = t

module _ (os : Os) (net : Net os) where
  unfoldable pub random_hex : ℕ → Exec os.World Text
  unfolding hex
  random_hex n = do
    bytes ← call os "read /dev/urandom for a trace id" (net.random n)
    pure (hex bytes)

  -- Errors of the two calls are ignored.
  abbrev limited : ℕ → Exec os.World (Unit {0})
  limited stream w = (ok tt, net.set_timeouts stream w)

  unfoldable pub post : Text → Text → Exec os.World (Unit {0})
  unfolding split_endpoint request is_accepted first_line
  post endpoint content = do
    target ← lift (split_endpoint endpoint)
    stream ← call os "connect to the OTLP collector" (net.connect target.0)
    limited stream
    call os "send the OTLP payload" (net.write_all stream (request target.1 target.0 content))
    response ← (λ w. let (text, w') = net.read_to_end stream w in (ok text, w'))
    guard (is_accepted (first_line (lines response))) (invalid "the OTLP collector answered")

  -- A span for each phase, after a comma, below the span of the whole.
  unfoldable pub spans_of : Text → Text → ℕ → Text → List Phase → Exec os.World Text
  unfolding random_hex
  spans_of trace_id root_span origin container_id [] = pure []
  spans_of trace_id root_span origin container_id (p ∷ ps) =
      let rest = spans_of trace_id root_span origin container_id ps in
      random_hex 8 >>= λ id. rest >>= λ others. pure (
        codes ","
        ++ (span trace_id id (some root_span) p.name origin p.start_us p.end_us container_id
            ++ others))

  unfoldable pub send_trace : Text → Text → Text → Text → ℕ → List Phase → Exec os.World (Unit {0})
  unfolding random_hex spans_of post latest
  send_trace version endpoint root container_id origin phases = do
    trace_id ← random_hex 16
    root_span ← random_hex 8
    others ← spans_of trace_id root_span origin container_id phases
    host ← gets net.gethostname
    let whole = span trace_id root_span none root origin 0 (latest phases) container_id
    post endpoint (body version (or_no_name host) (whole ++ others))

  -- Nothing is sent if there are no phases; the recorder has none after it.
  unfoldable pub export : Text → Text → Text → Text → ℕ → Recorder → Exec os.World Recorder
  unfolding send_trace take
  export version endpoint root container_id now recorder =
      let (phases, rest) = take now recorder in
      if is_empty phases
      then pure rest
      else (send_trace version endpoint root container_id recorder.wall_origin phases >> pure rest)
