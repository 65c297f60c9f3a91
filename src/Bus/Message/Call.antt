-- ===== src/Bus/Message/Call.antt =====
-- `call` and `raw_message_handler` of src/bus/mod.rs: what comes back over the language border.
use rust_systemd.Base.{ℕ, suc, ◌≡◌, ◌⊎◌, inl, inr, some, Result, ok, err, refl, Bytes, length, ◌+◌}
use rust_systemd.Base.Int.{pos, negsuc, ℤ-cases}
use rust_systemd.Ffi.{Machine}
use rust_systemd.Ffi.Heap.{Memory, view, at}
use rust_systemd.Bus.Library.{SdBusError, SdError, c_text}
use rust_systemd.Bus.RawError
use rust_systemd.Bus.RawError.{RawError}
use rust_systemd.Bus.Error
use rust_systemd.Bus.Error.{Error}
use rust_systemd.Bus.Error.Laws.{not_null}
use rust_systemd.Names.CStr.{up_to_nul}
use rust_systemd.Bus.SdBus.{SdBus, CallAnswer}
use rust_systemd.Bus.Handles.{take_ptr}
use rust_systemd.Bus.Message.{handled, replied, failed, Callback, raw_message_handler, call_method}

handled_lem :
    (r : Result Error (Unit {0})) (x : SdBusError)
    → ((handled r x).0 ≡ pos 0)
      × (((e : Error) × (r ≡ err e) × ((handled r x).1 ≡ e.raw.inner))
          ⊎ ((r ≡ ok tt) × ((handled r x).1 ≡ x)))
unfolding handled Error.move_into
handled_lem (err e) x = (refl, inl (e, refl, refl))
handled_lem (ok u) x = (refl, inr (refl, refl))

module _ {W : Type 0} (cb : Callback W) (msg : ℕ) (ret_error : SdBusError) (s : Machine W) where
  -- A handler's callback runs once, on the state at the call, and the C caller is told 0 whatever it
  -- gave; its error is behind `ret_error`, which is as it was where there is none.
  pub raw_message_handler_lem :
      ((raw_message_handler cb msg ret_error s).1 ≡ (cb msg s).1)
      × ((raw_message_handler cb msg ret_error s).0.0 ≡ pos 0)
      × (((e : Error) × ((cb msg s).0 ≡ err e)
            × ((raw_message_handler cb msg ret_error s).0.1 ≡ e.raw.inner))
          ⊎ (((cb msg s).0 ≡ ok tt) × ((raw_message_handler cb msg ret_error s).0.1 ≡ ret_error)))
  unfolding raw_message_handler
  raw_message_handler_lem = let (z, rest) = handled_lem (cb msg s).0 ret_error in (refl, z, rest)

-- sd_bus_call(3): a failure sets the error, whose strings can be read, and a success writes the reply
-- and leaves the error unset.
pub record IsAnswered {W : Type 0} (a : CallAnswer W) : Type 0 where
  pub on_failure :
      (n : ℕ)
      → a.ret ≡ negsuc n
      → (b : Bytes) × (view a.memory a.error.name ≡ at b)
        × ((a.error.message ≡ 0) ⊎ ((c : Bytes) × (view a.memory a.error.message ≡ at c)))
  pub on_success : (n : ℕ) → a.ret ≡ pos n → (a.error.name ≡ 0) × ((p : ℕ) × (a.reply ≡ some p))

module _ (errors : SdError) (x : SdBusError) (m : Memory) where
  into_result-unset :
      x.name ≡ 0 → (Error.into_result errors (record { inner = x }) m).0 ≡ some (ok tt)
  unfolding Error.into_result RawError.is_set
  into_result-unset h = rw h refl

  into_result-set :
      (b : Bytes)
      → view m x.name ≡ at b
      → (x.message ≡ 0) ⊎ ((c : Bytes) × (view m x.message ≡ at c))
      → (e : Error) × (e.raw.inner ≡ x)
        × ((Error.into_result errors (record { inner = x }) m).0 ≡ some (err e))
  unfolding Error.into_result RawError.is_set Error.from_raw c_text
  into_result-set b h (inl z) = (
    record { raw = record { inner = x }; name_len = length (up_to_nul b) + 1; message_len = 0 },
    refl,
    rw (not_null m x.name b h, z, h) refl,
  )
  into_result-set b h (inr (c, k)) = (
    record {
      raw = record { inner = x };
      name_len = length (up_to_nul b) + 1;
      message_len = length (up_to_nul c) + 1;
    },
    refl,
    rw (not_null m x.name b h, not_null m x.message c k, h, k) refl,
  )

module _ {W : Type 0} (lib : SdBus W) (errors : SdError) (self usec : ℕ) (s : Machine W) where
  -- `sd_bus_call` as `call` calls it, with an error that is not set.
  abbrev pub answered : CallAnswer W
  answered = lib.sd_bus_call self usec RawError.new.inner s.memory s.world

  call_succeeds :
      IsAnswered answered
      → (n : ℕ) → answered.ret ≡ pos n
      → (k p : ℕ) × (answered.ret ≡ pos k)
        × (answered.reply ≡ some p)
        × ((call_method lib self errors usec s).0 ≡ replied (record { raw = p }))
  unfolding call_method take_ptr
  call_succeeds h n e =
      let (unset, (p, written)) = h.on_success n e in
      (
        n,
        p,
        e,
        written,
        rw (into_result-unset errors answered.error answered.memory unset, call_method, written)
            refl,
      )

  -- `call` gives the reply where `sd_bus_call` succeeds and otherwise the error that it set, though it
  -- does not read the return value; this holds where `sd_bus_call` sets the error exactly on failure.
  pub call_method_lem :
      IsAnswered answered
      → ((n p : ℕ) × (answered.ret ≡ pos n)
          × (answered.reply ≡ some p)
          × ((call_method lib self errors usec s).0 ≡ replied (record { raw = p })))
        ⊎ ((n : ℕ) × (e : Error) × (answered.ret ≡ negsuc n)
            × (e.raw.inner ≡ answered.error)
            × ((call_method lib self errors usec s).0 ≡ failed e))
  unfolding call_method
  call_method_lem h = elim (ℤ-cases answered.ret) [
    | inl (n, e) ↦ inl (call_succeeds h (suc n) e)
    | inr (inl e) ↦ inl (call_succeeds h 0 e)
    | inr (inr (n, e)) ↦
        let (b, named, told) = h.on_failure n e in
        let (x, same, result) =
          into_result-set errors answered.error answered.memory b named told in
        inr (n, x, e, same, rw (result, call_method) refl)
  ]
