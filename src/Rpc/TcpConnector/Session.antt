-- ===== src/Rpc/TcpConnector/Session.antt =====
-- What `ExecuteLocked` promises: a response is the answer to its request, and a connection that may
-- be out of step is not used again.
use tide_pool.Protocol.Message.{validate_request, validate_response}
use tide_pool.Protocol.Header.{Pointer, CodecLimits, kind_response}
use tide_pool.Transport.Framing.{WireFrame}
use tide_pool.Rpc.TcpConnector.{
  after_validate, Allocations, Io, after_ensure, after_read, after_write, connect_new,
  ensure_connected, exchange, execute, has_open, request_header, returns, throws, check_response,
  Channel, TcpConnector, allocate_request_id, data_or_null, drop_connection,
  dropped_unless_capacity,
}
use tide_pool.Prelude.{
  sym, List, Option, some, subst, ◌∙◌, if_lem, not, ◌==◌, Bool, arith, inl, inr, length, none, refl,
  u64_mod, ℕ, ◌<◌, ◌≡◌, ◌≢◌, ◌⊎◌,
}
use tide_pool.Api.Status.{Result-cases, Result, Status, failure, ok, out_of_capacity, value}

module _ (C : Channel) where
  -- A request id is never zero and fits in 64 bits.
  pub record IsNumbered (t : TcpConnector C) : Type 0 where
    pub fits : t.next_request_id < u64_mod
    pub nonzero : t.next_request_id ≢ 0

  -- The ids of two requests in a row differ, none is zero, and the counter stays in range when it
  -- wraps around.
  pub allocate_request_id-IsNumbered :
      (t : TcpConnector C)
      → IsNumbered t
      → (allocate_request_id C t).0 ≢ 0
        × IsNumbered (allocate_request_id C t).1
        × ((allocate_request_id C (allocate_request_id C t).1).0 ≢ (allocate_request_id C t).0)
  unfolding allocate_request_id
  allocate_request_id-IsNumbered t h = (
    h.nonzero,
    record { fits = ground (arith, h.fits); nonzero = ground arith },
    ground (arith, h.nonzero),
  )

  -- What an exchange comes to: a valid response to just this request; or the lack of memory, which
  -- leaves the connection in step; or any other failure, which leaves no connection.
  abbrev pub InStep : Bool → ℕ → ℕ → CodecLimits → Result WireFrame × TcpConnector C → Type 0
  InStep alloc opcode request_id limits (value r, t) =
      (r.header.kind ≡ kind_response)
      × (r.header.opcode ≡ opcode)
      × (r.header.request_id ≡ request_id)
      × (validate_response alloc r.header (data_or_null r.payload) (length r.payload) limits ≡ ok)
  InStep alloc opcode request_id limits (failure s, t) =
      (s ≡ out_of_capacity) ⊎ (t.connection ≡ none)

  drop_connection-none : (t : TcpConnector C) → (drop_connection C t).connection ≡ none
  unfolding drop_connection
  drop_connection-none t = ground arith

  dropped_unless_capacity-InStep :
      (alloc : Bool) (opcode request_id : ℕ) (limits : CodecLimits) (s : Status)
      (t : TcpConnector C)
      → InStep alloc opcode request_id limits (dropped_unless_capacity C s t)
  unfolding dropped_unless_capacity
  dropped_unless_capacity-InStep alloc opcode request_id limits out_of_capacity t = inl refl
  dropped_unless_capacity-InStep alloc opcode request_id limits s t = inr (drop_connection-none t)

  validate_response_kind :
      (alloc : Bool) (r : WireFrame) (limits : CodecLimits) (p : Pointer)
      → validate_response alloc r.header p (length r.payload) limits ≡ ok
      → r.header.kind ≡ kind_response
  unfolding validate_response
  validate_response_kind alloc r limits p e = ground (arith, e)

  check_response-InStep :
      (alloc : Bool) (opcode request_id : ℕ) (response : WireFrame) (t : TcpConnector C)
      → InStep alloc opcode request_id t.codec_limits
          (check_response C alloc opcode request_id response t)
  unfolding check_response
  check_response-InStep alloc opcode request_id response t =
      let Good = InStep alloc opcode request_id t.codec_limits in
      let dropped_in_step = inr (drop_connection-none t) in
      if_lem Good (not (response.header.kind == kind_response)) _ _ (λ _. dropped_in_step)
        λ k.
          if_lem Good (not (response.header.opcode == opcode)) _ _ (λ _. dropped_in_step)
            λ o.
              if_lem Good (not (response.header.request_id == request_id)) _ _
                (λ _. dropped_in_step)
                λ i.
                  validated response t (ground arith) (ground arith) (ground arith)
                    (validate_response alloc response.header (data_or_null response.payload)
                      (length response.payload) t.codec_limits)
                    refl
    where
      validated :
          (response : WireFrame) (t : TcpConnector C)
          → response.header.kind ≡ kind_response
          → response.header.opcode ≡ opcode
          → response.header.request_id ≡ request_id
          → (s : Status)
          → validate_response alloc response.header
              (data_or_null response.payload)
              (length response.payload)
              t.codec_limits
            ≡ s
          → InStep alloc opcode request_id t.codec_limits
              (elim s [ ok ↦ (value response, t) | s ↦ dropped_unless_capacity C s t ])
      validated response t k o i ok e = (k, o, i, e)
      validated response t k o i s e =
          dropped_unless_capacity-InStep alloc opcode request_id t.codec_limits s t

  after_read-InStep :
      (alloc : Bool) (opcode request_id : ℕ) (r : Io (Result WireFrame)) (t : TcpConnector C)
      → InStep alloc opcode request_id t.codec_limits (after_read C alloc opcode request_id r t)
  unfolding after_read
  after_read-InStep alloc opcode request_id throws t = inl refl
  after_read-InStep alloc opcode request_id (returns (failure s)) t = inr (drop_connection-none t)
  after_read-InStep alloc opcode request_id (returns (value response)) t =
      check_response-InStep alloc opcode request_id response t

  after_write-InStep :
      (alloc : Bool) (opcode request_id : ℕ) (w : Io Status) (c : C.Conn) (t : TcpConnector C)
      → InStep alloc opcode request_id t.codec_limits (after_write C alloc opcode request_id w c t)
  unfolding after_write
  after_write-InStep alloc opcode request_id throws c t = inl refl
  after_write-InStep alloc opcode request_id (returns ok) c t =
      let (r, d, world) = C.read_wire_frame t.codec_limits c t.world in
      after_read-InStep alloc opcode request_id r (record t { connection = some d; world = world })
  after_write-InStep alloc opcode request_id (returns s) c t = inr (drop_connection-none t)

  exchange-InStep :
      (alloc : Bool) (opcode request_id : ℕ) (payload : List ℕ) (o : Option C.Conn)
      (t : TcpConnector C)
      → t.connection ≡ o
      → InStep alloc opcode request_id t.codec_limits
          (exchange C alloc opcode request_id payload o t)
  unfolding exchange
  exchange-InStep alloc opcode request_id payload none t e = inr e
  exchange-InStep alloc opcode request_id payload (some c) t e =
      let (w, d, world) =
        C.write_wire_frame t.codec_limits (request_header C opcode request_id payload) payload c
          t.world in
      after_write-InStep alloc opcode request_id w d
        (record t { connection = some d; world = world })

  -- `EnsureConnectedLocked` leaves a connection, or a failure and none.
  abbrev pub Ensured : TcpConnector C → Status × TcpConnector C → Type 0
  Ensured t (s, u) = (u.codec_limits ≡ t.codec_limits) × (s ≢ ok → u.connection ≡ none)

  connect_new-Ensured :
      (alloc : Bool) (t : TcpConnector C) → t.connection ≡ none → Ensured t (connect_new C alloc t)
  unfolding connect_new
  connect_new-Ensured alloc t e =
      let (answer, world) = C.connect t.host t.port t.connection_options t.world in
      elim (Result-cases answer) [
        | inr (s, f) ↦ rw (f, connect_new) (refl, λ _. e)
        | inl (c, f) ↦
            rw (f, connect_new)
              (if_lem (Ensured t) alloc _ _ (λ _. (refl, λ n. absurd (n refl))) λ _. (refl, λ _. e))
      ]

  dropped_limits : (t : TcpConnector C) → (drop_connection C t).codec_limits ≡ t.codec_limits
  unfolding drop_connection
  dropped_limits t = ground arith

  ensure_connected-Ensured :
      (alloc : Bool) (t : TcpConnector C) → Ensured t (ensure_connected C alloc t)
  unfolding ensure_connected
  ensure_connected-Ensured alloc t =
      if_lem (Ensured t) (has_open C t.connection) _ _ (λ _. (refl, λ n. absurd (n refl)))
        λ _.
          let (same, h) =
            connect_new-Ensured alloc (drop_connection C t) (drop_connection-none t) in
          (same ∙ dropped_limits t, h)

  after_ensure-InStep :
      (alloc : Bool) (opcode request_id : ℕ) (payload : List ℕ) (t : TcpConnector C)
      (e : Status × TcpConnector C)
      → Ensured t e
      → InStep alloc opcode request_id t.codec_limits
          (after_ensure C alloc opcode request_id payload e)
  unfolding after_ensure
  after_ensure-InStep alloc opcode request_id payload t (ok, u) (same, h) =
      subst
        (λ l.
          InStep alloc opcode request_id l
            (exchange C alloc opcode request_id payload u.connection u))
        same (exchange-InStep alloc opcode request_id payload u.connection u refl)
  after_ensure-InStep alloc opcode request_id payload t (s, u) (same, h) = inr (h λ e. absurd cc)

  -- Whatever the network does, an exchange with a valid request comes to one of three: a valid
  -- response to this very request, with its opcode and its id; a lack of memory; or another failure,
  -- after which there is no connection, so that no later call reads what was left of this one.
  pub execute-InStep :
      (alloc : Allocations) (opcode : ℕ) (payload : List ℕ) (t : TcpConnector C)
      → validate_request alloc.request
          (request_header C opcode t.next_request_id payload)
          (data_or_null payload)
          (length payload)
          t.codec_limits
        ≡ ok
      → InStep alloc.response opcode t.next_request_id t.codec_limits
          (execute C alloc opcode payload t)
  unfolding execute allocate_request_id after_validate
  execute-InStep alloc opcode payload t v =
      let (request_id, u) = allocate_request_id C t in
      subst
        (λ s.
          InStep alloc.response opcode request_id t.codec_limits
            (after_validate C alloc opcode request_id payload s u))
        (sym v)
        (after_ensure-InStep alloc.response opcode request_id payload u
          (ensure_connected C alloc.connection u) (ensure_connected-Ensured alloc.connection u))
