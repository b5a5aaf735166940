-- ===== src/RouteProxy/Response.antt =====
-- `_prepare_response`, which reads enough of a response to commit to it, and `_send_response`, which
-- hands it to the client.
use orichum.Base.{
  ℕ, zero, suc, ◌+◌, ◌-◌, String, Bool, true, false, ◌&&◌, Option, some, List, [], ◌∷◌, ◌++◌, ℤ,
  pos, ltb, leb, ◌==◌, nat_eq, length, take, drop, if◌then◌else◌,
}
use Prim.Native.Char.{code}
use orichum.Base.Result.{Result, ok, err}
use orichum.Base.Text.{strip}
use orichum.RouteProxy.Paths.{partition}
use orichum.RouteProxy.Sse.{Bytes, has_sse_data_event}
use orichum.RouteProxy.World.{
  Failure, stream, client_stream, Read, block, broken, Response, Act, pure, raise, modify, ◌>>=◌,
  ◌>>◌,
}

-- A response that is committed to: its status, the bytes read, and the reads to come.
pub record Prepared : Type 0 where
  pub status : ℕ
  pub prelude : Bytes
  pub rest : List Read
  pub remaining : Option ℕ

abbrev pub max_prelude : ℕ
max_prelude = 1048576

-- `a.lower() == b` for a lower-case `b` in ASCII.
unfoldable pub same_lower : String → String → Bool
same_lower String.[] String.[] = true
same_lower (String.◌∷◌ c s) (String.◌∷◌ d t) =
    (if leb b'A' (code c) && leb (code c) b'Z' then code c + 32 else code c) == code d
    && same_lower s t
same_lower _ _ = false

unfoldable pub is_event_stream : String → Bool
is_event_stream content_type =
    same_lower (strip (partition b';' content_type).0) "text/event-stream"

abbrev pub Parts : Type 0
Parts = Bytes × List Read

-- The loop for an event stream: it ends when the buffer holds a data event.
unfoldable pub read_event : ℕ → Bytes → List Read → Result Failure Parts
read_event status buffered [] = err (stream (some status) 0)
read_event status buffered (broken ∷ reads) = err (stream (some status) 0)
read_event status buffered (block [] ∷ reads) = err (stream (some status) 0)
read_event status buffered (block (b ∷ bs) ∷ reads) =
    let more = buffered ++ b ∷ bs in
    let deeper = read_event status more reads in
    if ltb (length buffered) max_prelude
    then (if has_sse_data_event more then ok (more, reads) else deeper)
    else err (stream (some status) 0)

-- `response.read(n)`: up to `n` bytes, fewer only at the end.
unfoldable pub read_exact : ℕ → ℕ → List Read → Result Failure Parts
read_exact status zero reads = ok ([], reads)
read_exact status (suc n) [] = ok ([], [])
read_exact status (suc n) (broken ∷ reads) = err (stream (some status) 0)
read_exact status (suc n) (block [] ∷ reads) = ok ([], block [] ∷ reads)
read_exact status (suc n) (block (b ∷ bs) ∷ reads) =
    let deeper = read_exact status (n - length bs) reads in
    if leb (length bs) n
    then elim deeper [ ok (more, rest) ↦ ok ((b ∷ bs) ++ more, rest) | err e ↦ err e ]
    else ok (take (suc n) (b ∷ bs), block (drop (suc n) (b ∷ bs)) ∷ reads)

-- `response.read1(…)` for another response.
unfoldable pub read_some : ℕ → Bool → List Read → Result Failure Parts
read_some status expected (block (b ∷ bs) ∷ reads) = ok (b ∷ bs, reads)
read_some status expected (broken ∷ reads) = err (stream (some status) 0)
read_some status expected reads = if expected then err (stream (some status) 0) else ok ([], reads)

-- The first bytes of a response that is no event stream, by its content length.
unfoldable pub read_plain : ℕ → Option ℤ → List Read → Result Failure Parts
read_plain status (some (pos n)) reads =
    if leb n max_prelude
    then elim (read_exact status n reads) [
      | err e ↦ err e
      | ok (prelude, rest) ↦
          (if length prelude == n then ok (prelude, rest) else err (stream (some status) 0))
    ]
    else read_some status true reads
read_plain status _ reads = read_some status false reads

unfoldable pub read_prelude : Response → Result Failure Parts
read_prelude r =
    if is_event_stream r.content_type
    then read_event r.status [] r.reads
    else read_plain r.status r.content_length r.reads

unfoldable pub prepare : Response → Result Failure Prepared
prepare r = elim (read_prelude r) [
  | err e ↦ err e
  | ok (prelude, rest) ↦
      ok (record { status = r.status; prelude = prelude; rest = rest; remaining = r.remaining })
]

-- A write to the client, with its flush.
unfoldable pub write : Bytes → Act Bool
write bs w = elim w.writes [
  | false ∷ rest ↦ (ok false, record w { writes = rest })
  | true ∷ rest ↦ (ok true, record w { writes = rest; delivered = w.delivered ++ bs })
  | [] ↦ (ok true, record w { delivered = w.delivered ++ bs })
]

-- The loop over the blocks, with the number of bytes forwarded.
unfoldable pub forward : ℕ → Option ℕ → ℕ → List Read → Act ℕ
forward status remaining n [] =
    λ w. elim remaining [ some (suc k) ↦ (err (stream (some status) n), w) | _ ↦ (ok n, w) ]
forward status remaining n (broken ∷ reads) = raise (stream (some status) n)
forward status remaining n (block [] ∷ reads) =
    λ w. elim remaining [ some (suc k) ↦ (err (stream (some status) n), w) | _ ↦ (ok n, w) ]
forward status remaining n (block (b ∷ bs) ∷ reads) =
    let deeper = forward status remaining (n + length (b ∷ bs)) reads in
    do written ← write (b ∷ bs); if written then deeper else raise (client_stream status n)

-- The prelude is written only if there is one.
unfoldable pub send_prelude : ℕ → Bytes → Act ℕ
send_prelude status [] = pure 0
send_prelude status (b ∷ bs) = do
  written ← write (b ∷ bs)
  if written then pure (length (b ∷ bs)) else raise (client_stream status 0)

unfoldable pub send_response : Prepared → Act ℕ
send_response p = do
  modify (λ w. record w { response_started = true })
  headers ← write []
  n ← if headers then send_prelude p.status p.prelude else raise (client_stream p.status 0)
  forward p.status p.remaining n p.rest
