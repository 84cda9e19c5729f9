-- ===== src/Client/Reader/Buffer.antt =====
-- The read buffer of `read_loop` of crates/server/src/client.rs.
use nats_server_rs.Prelude.{
  ℕ, ◌+◌, ◌≤◌, ◌<◌, ◌%◌, ◌^◌, ◌&&◌, ◌*◌, ◌/◌, min, Bool, true, false, ◌≡◌, ◌⊎◌, inl, inr, refl, leb,
  ltb, if◌then◌else◌, arith,
}
use nats_server_rs.Client.Reader.{Window, after_read}

-- The capacity is the first, the second or the last of the three sizes; a buffer that could shrink has
-- seen at most two short reads.
pub record IsWindow (v : Window) : Type 0 where
  pub sized : (v.cap ≡ 16384) ⊎ ((v.cap ≡ 32768) ⊎ (v.cap ≡ 65536))
  pub few : 16384 < v.cap → v.short ≤ 2

IsWindow-if :
    (b : Bool) (r s : Window)
    → (b ≡ true → IsWindow r)
    → (b ≡ false → IsWindow s)
    → IsWindow (if b then r else s)
IsWindow-if true r s f g = f refl
IsWindow-if false r s f g = g refl

grown :
    (c : ℕ)
    → (c ≡ 16384) ⊎ ((c ≡ 32768) ⊎ (c ≡ 65536))
    → (min (c * 2) 65536 ≡ 16384) ⊎ ((min (c * 2) 65536 ≡ 32768) ⊎ (min (c * 2) 65536 ≡ 65536))
grown c (inl e) = inr (inl (omega arith))
grown c (inr (inl e)) = inr (inr (omega arith))
grown c (inr (inr e)) = inr (inr (omega arith))

shrunk :
    (c : ℕ)
    → (c ≡ 16384) ⊎ ((c ≡ 32768) ⊎ (c ≡ 65536))
    → 16384 < c
    → (c / 2 ≡ 16384) ⊎ ((c / 2 ≡ 32768) ⊎ (c / 2 ≡ 65536))
shrunk c (inl e) lt = absurd (omega arith)
shrunk c (inr (inl e)) lt = inl (omega arith)
shrunk c (inr (inr e)) lt = inr (inl (omega arith))

-- A read of any size keeps the capacity of the read buffer at 16, 32 or 64 KiB, with at most two
-- short reads counted while it could shrink.
pub after_read-IsWindow : (n : ℕ) (v : Window) → IsWindow v → IsWindow (after_read n v)
unfolding after_read
after_read-IsWindow n v h =
    let short = (v.short + 1) % 2 ^ 32 in
    IsWindow-if (leb v.cap n) _ _
      (λ _. record { sized = grown v.cap h.sized; few = λ _. omega arith })
      (λ _.
        IsWindow-if (ltb n (v.cap / 2)) _ _
          (λ _.
            IsWindow-if (ltb 2 short && ltb 16384 v.cap) _ _
              (λ both. record {
                sized = shrunk v.cap h.sized (ground (arith, both));
                few = λ _. omega arith;
              })
              (λ not_both. record { sized = h.sized; few = λ lt. ground (arith, not_both) }))
          (λ _. h))
