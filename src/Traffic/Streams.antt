-- ===== src/Traffic/Streams.antt =====
-- The loop over a KCP stream in gateway/network/udp_server.go, on what a client wrote.
use ki_han_server_distribute.Base.{
  ℕ, zero, suc, ◌≤◌, ◌<◌, ◌^◌, Bool, Option, none, some, List, [], ◌∷◌, ◌++◌, ◌≡◌, refl, ap, arith,
  length, length-append,
}
use ki_han_server_distribute.Base.Bytes.{Bytes}
use ki_han_server_distribute.Packet.{encode_app_frame, read_app_frame, read_frames}
use ki_han_server_distribute.Packet.Frames.{frame, encode_app_frame_short, read_app_frame-frame}
use ki_han_server_distribute.Gateway.{Gateway}
use ki_han_server_distribute.Traffic.{Backend, dispatch_all, kcp_loop}

-- Commands of 16 bits with payloads that fit a frame.
abbrev pub Short : List (ℕ × Bytes) → Type 0
Short [] = Unit
Short ((cmd_id, payload) ∷ ms) = (cmd_id < 2 ^ 16) × (length payload < 65532) × Short ms

join_frame : Option Bytes → Option Bytes → Option Bytes
join_frame (some f) (some s) = some (f ++ s)
join_frame _ _ = none

-- What a client writes for some messages, one frame behind the other; `none` is a panic.
pub stream_of : List (ℕ × Bytes) → Option Bytes
unfolding join_frame
stream_of [] = some []
stream_of ((cmd_id, payload) ∷ ms) = join_frame (encode_app_frame cmd_id payload) (stream_of ms)

read_frames-stream_of :
    (ms : List (ℕ × Bytes))
    → Short ms
    → (s : Bytes) × (stream_of ms ≡ some s)
      × (length ms ≤ length s)
      × ((n : ℕ) → length ms ≤ n → read_frames n s ≡ ms)
unfolding stream_of read_frames
read_frames-stream_of [] h = ([], refl, omega arith, empty_lem)
  where
    empty_lem : (n : ℕ) → 0 ≤ n → read_frames n [] ≡ []
    empty_lem zero h = refl
    empty_lem (suc n) h = unfold read_app_frame in refl
read_frames-stream_of ((cmd_id, payload) ∷ ms) (hc, hp, h) =
    let (s, written, long, read) = read_frames-stream_of ms h in
    let f = frame cmd_id payload in
    (
      f ++ s,
      rw (encode_app_frame_short cmd_id payload hp, written) refl,
      omega (arith, length-append payload s),
      read_lem s read,
    )
  where
    read_lem :
        (s : Bytes)
        → ((n : ℕ) → length ms ≤ n → read_frames n s ≡ ms)
        → (n : ℕ) → suc (length ms) ≤ n
        → read_frames n (frame cmd_id payload ++ s) ≡ (cmd_id, payload) ∷ ms
    read_lem s read zero k = absurd (omega arith)
    read_lem s read (suc n) k =
        rw (read_app_frame-frame cmd_id payload s hc hp, read_frames)
          (ap (◌∷◌ (cmd_id, payload)) (read n (omega arith)))

module _ ⦃be : Backend⦄ where
  -- Any messages with commands of 16 bits and payloads shorter than 65532 bytes, written as frames
  -- one behind the other by EncodeAppFrame, which does not panic: the loop over the KCP stream
  -- dispatches exactly these messages, in order, and then ends.
  pub kcp_loop-stream_of :
      (ms : List (ℕ × Bytes)) (opens : Bool) (p : ℕ) (server : be.Server) (g : Gateway)
      → Short ms
      → (s : Bytes) × (stream_of ms ≡ some s)
        × (kcp_loop opens p s server g ≡ dispatch_all opens p ms server g)
  unfolding kcp_loop
  kcp_loop-stream_of ms opens p server g h =
      let (s, written, long, read) = read_frames-stream_of ms h in
      (s, written, ap (λ frames. dispatch_all opens p frames server g) (read (length s) long))
