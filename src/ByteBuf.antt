-- ===== src/ByteBuf.antt =====
-- aws-c-common's byte buffer, which the encoders write to.
use aws_c_http.Prelude.{
  ℕ, ◌+◌, ◌-◌, ◌≤◌, ◌<◌, ◌≡◌, Bool, true, false, List, ◌++◌, length, min, take,
}

-- `struct aws_byte_buf`: the bytes up to `len`, and the capacity.
pub record ByteBuf : Type 0 where
  pub contents : List ℕ
  pub capacity : ℕ

-- `out_buf->len`
abbrev pub len : ByteBuf → ℕ
len b = length b.contents

-- aws-c-common's `aws_byte_buf_write_u8` and `aws_byte_buf_write_from_whole_cursor`, one function of
-- the bytes to write.
abbrev pub Write : Type 0
Write = ByteBuf → List ℕ → ByteBuf × Bool

-- Its documented behaviour: it writes all the bytes or, where they do not fit, none.
pub record IsWrite (write : Write) : Type 0 where
  pub write_fits :
      (b : ByteBuf) (xs : List ℕ)
      → len b + length xs ≤ b.capacity
      → write b xs ≡ (record b { contents = b.contents ++ xs }, true)
  pub write_full :
      (b : ByteBuf) (xs : List ℕ) → b.capacity < len b + length xs → write b xs ≡ (b, false)

-- `aws_byte_buf_write_to_capacity`: the cursor that it returns is as long as the number.
abbrev pub WriteToCapacity : Type 0
WriteToCapacity = ByteBuf → List ℕ → ByteBuf × ℕ

-- Its documented behaviour: it writes as much as there is room for.
abbrev pub IsWriteToCapacity : WriteToCapacity → Type 0
IsWriteToCapacity write =
    (b : ByteBuf) (xs : List ℕ)
    → write b xs ≡ (
      record b { contents = b.contents ++ take (min (b.capacity - len b) (length xs)) xs },
      min (b.capacity - len b) (length xs),
    )
