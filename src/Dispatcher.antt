-- ===== src/Dispatcher.antt =====
-- dis of application.go: what a packet makes the server do. Writing to a client, queueing and the
-- recording of a ping are actions, in their order.
pub mod Carried
pub mod Requests
pub mod Replies
pub mod Deadline
pub mod Expiry
pub mod Due
use go_moa.Base.{
  ℕ, ◌*◌, Bool, true, false, not, ◌≡◌, Text, codes, Option, none, some, List, [], ◌∷◌, ◌++◌, ◌&&◌,
  ◌==◌, if◌then◌else◌, Assoc, lookup,
}
use go_moa.Base.Int.{ℤ, pos, leb_ℤ, sub_i64, mul_i64}
use go_moa.Config.{Cluster, MoaOption}
use go_moa.Context.{Store, Props, nil_map, at_ref, Tracer}
use go_moa.Protocol.{
  MoaReqPacket, MoaRawReqPacket, MoaRespPacket, MoaRawRespPacket, PiPo, req_cmd, resp_cmd, ping_cmd,
  pong_cmd, info_cmd, code_throwable,
}
use go_moa.Stat.{Meters, MoaInfo, MoaStat, get_moa_info}
use go_moa.Proxy.{Reflect, InvocationHandler}
use go_moa.Proxy.Invoke.{Done, Result, finished, escaped, invoke, no_response}

-- What a packet carries; `N` is turbo's NetworkStat.
pub data PayLoad (N : Type 0) (V : Type 0) : Type 0 where
  raw_req : MoaRawReqPacket → PayLoad N V
  client_req : MoaReqPacket V → PayLoad N V
  raw_resp : MoaRawRespPacket → PayLoad N V
  pipo : PiPo → PayLoad N V
  response : MoaRespPacket V → PayLoad N V
  stat : N → MoaInfo → PayLoad N V
  other : PayLoad N V

pub record Packet (N : Type 0) (V : Type 0) : Type 0 where
  pub opaque : ℕ
  pub cmd_type : ℕ
  pub pay_load : PayLoad N V

-- turbo.TContext
pub record TContext (N : Type 0) (V : Type 0) : Type 0 where
  pub message : Packet N V
  pub err : Option Text
  pub remote_addr : Text

-- A call that waits in the pool: the header's opaque of its request, and the request.
pub record Job : Type 0 where
  pub opaque : ℕ
  pub req : MoaRawReqPacket

pub data Action (N : Type 0) (V : Type 0) : Type 0 where
  write : Packet N V → Action N V
  pong : ℕ → ℤ → Action N V
  queue : Job → Action N V

-- The application as dis reads it; the statistics are nil until the server is set up.
pub record App (M : Meters) : Type 0 where
  pub options : MoaOption
  pub moa_stat : Option (MoaStat M)

abbrev pub millisecond : ℕ
millisecond = 1_000_000

-- A missing cluster is the zero value.
unfoldable pub process_timeout : MoaOption → ℤ
process_timeout o = elim (lookup o.server.run_mode o.clusters) [
  | none ↦ pos 0
  | some c ↦ c.process_timeout
]

-- `now` is time.Now().UnixNano().
unfoldable pub is_expired : ℤ → MoaRawReqPacket → Bool
is_expired now req =
    not (leb_ℤ req.create_time (pos 0))
    && leb_ℤ req.timeout (sub_i64 now (mul_i64 req.create_time millisecond))

abbrev pub resp_packet : {N V : Type 0} → ℕ → ℕ → PayLoad N V → Packet N V
resp_packet opaque cmd_type pay_load = record {
  opaque = opaque;
  cmd_type = cmd_type;
  pay_load = pay_load;
}

abbrev pub error_response : {V : Type 0} → Text → MoaRespPacket V
error_response e = record no_response { err_code = code_throwable; message = e }

module _ {N V : Type 0} where
  -- Without a PiPo the answer carries the zero value.
  on_ping : ℕ → PayLoad N V → List (Action N V)
  on_ping opaque (pipo p) =
      pong opaque p.timestamp ∷ write (resp_packet opaque pong_cmd (pipo p)) ∷ []
  on_ping opaque _ = write (resp_packet opaque pong_cmd (pipo (record { timestamp = pos 0 }))) ∷ []

  -- The callback writes the response under the opaque of the request.
  unfoldable pub send : ℕ → Option (MoaRespPacket V) → List (Packet N V)
  send opaque none = []
  send opaque (some resp) = resp_packet opaque resp_cmd (response resp) ∷ []

module _ {N V : Type 0} {M : Meters} where
  -- The request with its source and timeout.
  abbrev pub with_source : App M → TContext N V → MoaRawReqPacket → MoaRawReqPacket
  with_source app ctx req = record req {
    source = ctx.remote_addr;
    timeout = process_timeout app.options;
  }

  -- A payload of another type is a panic, which dis recovers from.
  on_req : App M → ℤ → TContext N V → PayLoad N V → List (Action N V)
  unfolding is_expired
  on_req app now ctx (raw_req req) =
      if is_expired now (with_source app ctx req)
      then []
      else queue (record { opaque = ctx.message.opaque; req = with_source app ctx req }) ∷ []
  on_req app now ctx _ = []

  on_info : App M → N → ℕ → List (Action N V)
  unfolding get_moa_info
  on_info app network opaque = elim app.moa_stat [
    | none ↦ []
    | some s ↦ write (resp_packet opaque info_cmd (stat network (get_moa_info s))) ∷ []
  ]

  on_message : App M → ℤ → N → TContext N V → List (Action N V)
  unfolding on_req on_ping on_info
  on_message app now network ctx =
      if ctx.message.cmd_type == req_cmd
      then on_req app now ctx ctx.message.pay_load
      else if ctx.message.cmd_type == ping_cmd
      then on_ping ctx.message.opaque ctx.message.pay_load
      else if ctx.message.cmd_type == info_cmd
      then on_info app network ctx.message.opaque
      else []

  unfoldable pub dis : App M → ℤ → N → TContext N V → List (Action N V)
  unfolding on_message
  dis app now network ctx = elim ctx.err [
    | none ↦ on_message app now network ctx
    | some e ↦ write (resp_packet ctx.message.opaque resp_cmd (response (error_response e))) ∷ []
  ]

-- The properties of a request become the map of its context, which may be nil.
abbrev pub invoke_store : Option (Assoc Text) → Store
invoke_store none = []
invoke_store (some props) = props ∷ []

abbrev pub invoke_ctx : Option (Assoc Text) → Props
invoke_ctx none = nil_map
invoke_ctx (some props) = at_ref 0

module _ {V : Type 0} {M : Meters} where
  after_invoke :
      InvocationHandler M V → Result M V → InvocationHandler M V × Option (MoaRespPacket V)
  after_invoke h (finished store d) = (d.handler, d.sent)
  after_invoke h escaped = (h, none)

  -- The function that dis queues, run by the pool: the handler behind it, and the response that the
  -- callback gets.
  unfoldable pub run_job :
      Reflect V
      → Tracer
      → ℕ
      → InvocationHandler M V
      → Job
      → InvocationHandler M V × Option (MoaRespPacket V)
  unfolding after_invoke
  run_job R T cost h job =
      after_invoke h (
        invoke R T (invoke_store job.req.properties) h (invoke_ctx job.req.properties) job.req cost)

  -- All that is written to the client for the actions of a packet, its job run at some time.
  unfoldable pub written :
      {N : Type 0}
      → Reflect V
      → Tracer
      → ℕ
      → InvocationHandler M V
      → List (Action N V)
      → List (Packet N V)
  unfolding send
  written R T cost h [] = []
  written R T cost h (write p ∷ actions) = p ∷ written R T cost h actions
  written R T cost h (pong opaque time ∷ actions) = written R T cost h actions
  written R T cost h (queue job ∷ actions) =
      send job.opaque (run_job R T cost h job).1
      ++ written R T cost (run_job R T cost h job).0 actions
