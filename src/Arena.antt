-- ===== src/Arena.antt =====
-- crates/server/src/arena.rs: the chunk that a connection's frames are laid out in, over the buffers of
-- the crate `bytes`.
pub mod Build
pub mod Whole
use nats_server_rs.Prelude.{
  ℕ, ◌+◌, ◌-◌, ◌*◌, ◌≤◌, max, List, [], ◌∷◌, ◌++◌, Bytes, ltb, length, Bool, not, if◌then◌else◌,
  ◌≡◌,
}

-- What arena.rs and `build_frame` use of `BytesMut`; `split` is `split().freeze()`, with what it leaves.
pub record ByteBuf : Type 1 where
  pub Buf : Type 0
  pub contents : Buf → Bytes
  pub capacity : Buf → ℕ
  pub empty : Buf
  pub with_capacity : ℕ → Buf
  pub put_slice : Buf → Bytes → Buf
  pub split : Buf → Buf × Bytes

-- What the crate's documentation says of them: a buffer that is made has the capacity it was asked for,
-- at least; writing within the capacity does not move the buffer; a split takes the bytes away, and the
-- room that is left stays.
pub record IsByteBuf (b : ByteBuf) : Type 0 where
  pub contents-empty : ByteBuf.contents b (ByteBuf.empty b) ≡ []
  pub contents-with_capacity : (n : ℕ) → ByteBuf.contents b (ByteBuf.with_capacity b n) ≡ []
  pub capacity-with_capacity : (n : ℕ) → n ≤ ByteBuf.capacity b (ByteBuf.with_capacity b n)
  pub contents-put_slice :
      (x : ByteBuf.Buf b) (s : Bytes)
      → ByteBuf.contents b (ByteBuf.put_slice b x s) ≡ ByteBuf.contents b x ++ s
  pub capacity-put_slice :
      (x : ByteBuf.Buf b) (s : Bytes)
      → length (ByteBuf.contents b x) + length s ≤ ByteBuf.capacity b x
      → ByteBuf.capacity b (ByteBuf.put_slice b x s) ≡ ByteBuf.capacity b x
  pub split-bytes : (x : ByteBuf.Buf b) → (ByteBuf.split b x).1 ≡ ByteBuf.contents b x
  pub split-contents : (x : ByteBuf.Buf b) → ByteBuf.contents b (ByteBuf.split b x).0 ≡ []
  pub split-capacity :
      (x : ByteBuf.Buf b)
      → ByteBuf.capacity b (ByteBuf.split b x).0
        ≡ ByteBuf.capacity b x - length (ByteBuf.contents b x)

-- CHUNK
abbrev pub chunk_size : ℕ
chunk_size = 8 * 1024

module _ (b : ByteBuf) where
  pub record Arena : Type 0 where
    pub chunk : ByteBuf.Buf b
    pub size : ℕ

  -- `Arena::new`
  unfoldable pub new_arena : Arena
  new_arena = record { chunk = ByteBuf.empty b; size = chunk_size }

  unfoldable pub fits : Arena → ℕ → Bool
  fits a need = not (ltb (ByteBuf.capacity b a.chunk - length (ByteBuf.contents b a.chunk)) need)

  -- `tail`: the arena whose chunk has the room.
  unfoldable pub tail : Arena → ℕ → Arena
  unfolding fits
  tail a need =
      if fits a need then a else record a { chunk = ByteBuf.with_capacity b (max need a.size) }

  unfoldable pub seal : Arena → Arena × Bytes
  seal a = let (chunk, frame) = ByteBuf.split b a.chunk in (record a { chunk = chunk }, frame)
