-- ===== src/Node/Body.antt =====
-- packages/node/src/body.rs: a request body that is read, chunk by chunk, from a JavaScript reader.
pub mod Streams
use node_reqwest.Prelude.{
  Text, codes, if◌then◌else◌, Bool, true, false, Option, none, some, List, [], ◌∷◌,
}
use node_reqwest.Prelude.Outcome.{Result, ok, err, ◌>>=◌}
use node_reqwest.Node.Js.{Js}

-- `std::io::Error::other` with its text
abbrev pub IoError : Type 0
IoError = Text

abbrev pub ChunkResult : Type 0
ChunkResult = Result IoError (Option Text)

module _ (js : Js) where
  -- `JsBodyReader`, without the channel; `reader_root` holds the rooted reader until it is dropped.
  pub record JsBodyReader : Type 0 where
    pub reader_root : Option js.Value
    pub finished : Bool

  unfoldable pub new : js.Value → JsBodyReader
  new reader = record { reader_root = some reader; finished = false }

  -- What comes of one call of `read`: it throws or gives no promise (or the event loop is gone), or
  -- its promise is settled.
  pub data Reply : Type 0 where
    threw : Reply
    rejected : js.Value → Reply
    resolved : js.Value → Reply

  chunk_of : Bool → js.Value → Result js.Thrown ChunkResult
  chunk_of true obj = ok (ok none)
  chunk_of false obj = do
    value ← js.get obj (codes "value")
    chunk ← js.as_bytes value
    ok (ok (some chunk))

  on_resolved : js.Value → Result js.Thrown ChunkResult
  unfolding chunk_of
  on_resolved value = do
    obj ← js.as_object value
    member ← js.get obj (codes "done")
    done ← js.as_boolean member
    chunk_of done obj

  -- What the oneshot sender is given; an exception drops it unused.
  unfoldable pub sent : Reply → Option ChunkResult
  unfolding on_resolved
  sent threw = none
  sent (rejected _) = some (err (codes "request body reader error"))
  sent (resolved value) = elim (on_resolved value) [ ok result ↦ some result | err _ ↦ none ]

  -- The closure on the JavaScript thread: without the root it answers at once.
  receive : JsBodyReader → Reply → Option ChunkResult
  unfolding sent
  receive r reply = elim r.reader_root [ none ↦ some (ok none) | some _ ↦ sent reply ]

  settle : Option ChunkResult → JsBodyReader → ChunkResult × JsBodyReader
  settle (some (ok (some chunk))) r = (ok (some chunk), r)
  settle (some (ok none)) r = (ok none, record r { finished = true })
  settle (some (err e)) r = (err e, record r { finished = true })
  settle none r = (err (codes "body reader cancelled"), record r { finished = true })

  -- `next`, with the reply that it waits for, if it asks for one.
  unfoldable pub next : Reply → JsBodyReader → ChunkResult × JsBodyReader
  unfolding receive settle
  next reply r = if r.finished then (ok none, r) else settle (receive r reply) r

  -- The stream's items so far, whether it has ended, its reader, and the replies not asked for.
  pub record Streamed : Type 0 where
    pub items : List (Result IoError Text)
    pub ended : Bool
    pub reader : JsBodyReader
    pub unread : List Reply

  unread_by : JsBodyReader → Reply → List Reply → List Reply
  unread_by r reply replies = if r.finished then reply ∷ replies else replies

  -- One turn of the `loop`, given the rest of the stream and the replies left if it ends here.
  deliver : ChunkResult → JsBodyReader → Streamed → List Reply → Streamed
  deliver (ok (some chunk)) r rest left = record rest { items = ok chunk ∷ rest.items }
  deliver (ok none) r rest left = record { items = []; ended = true; reader = r; unread = left }
  deliver (err e) r rest left = record {
    items = err e ∷ [];
    ended = true;
    reader = r;
    unread = left;
  }

  -- The `loop` of `into_stream`, over the replies that come.
  unfoldable pub into_stream : List Reply → JsBodyReader → Streamed
  unfolding next unread_by deliver
  into_stream [] r = record { items = []; ended = r.finished; reader = r; unread = [] }
  into_stream (reply ∷ replies) r =
      let (result, s) = next reply r in
      deliver result s (into_stream replies s) (unread_by r reply replies)

  -- `Drop`: takes the root and asks that reader to cancel.
  unfoldable pub drop : JsBodyReader → JsBodyReader × List js.Value
  drop r = elim r.reader_root [
    | none ↦ (r, [])
    | some reader ↦ (record r { reader_root = none }, reader ∷ [])
  ]
