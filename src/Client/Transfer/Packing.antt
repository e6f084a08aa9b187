-- ===== src/Client/Transfer/Packing.antt =====
-- What a block stands for: a packed buffer comes back as it was.
use kd_desk_tc.Prelude.{
  ℕ, ◌*◌, ◌≤◌, ◌≡◌, refl, arith, Bool, some, List, [], ◌∷◌, ◌++◌, nat_eq, if◌then◌else◌, length,
}
use kd_desk_tc.Proto.{Text}
use kd_desk_tc.Client.Proto.{FileTransferBlock}
use kd_desk_tc.Client.Compress.{Zstd, compress, decompress, buffer_size, compress_level}
use kd_desk_tc.Client.Transfer.{buf_size, pack}

-- The bytes that a block stands for.
unfoldable pub decode : Zstd → FileTransferBlock → Text
decode z b = if b.compressed then decompress z b.payload else b.payload

unfoldable pub decode_all : Zstd → List FileTransferBlock → Text
decode_all z [] = []
decode_all z (b ∷ bs) = decode z b ++ decode_all z bs

-- What zstd promises: a buffer that it compresses comes back from any output buffer that has room.
unfoldable pub Lossless : Zstd → Type 0
Lossless z =
    (x : Text)
    → (c : Text) × (z.compress x compress_level ≡ some c)
      × ((n : ℕ) → length x ≤ n → z.decompress c n ≡ some x)

pub buffer_size_min : (n : ℕ) → 1024 * 1024 ≤ buffer_size n
unfolding buffer_size
buffer_size_min n = ground arith

-- What a packed buffer stands for.
unfoldable pub unpacked : Zstd → Text × Bool → Text
unpacked z p = if p.1 then decompress z p.0 else p.0

unpacked-compress :
    (z : Zstd) (buf : Text)
    → Lossless z
    → length buf ≤ buf_size
    → decompress z (compress z buf compress_level) ≡ buf
unfolding Lossless decompress compress
unpacked-compress z buf law h =
    let l = law buf in
    rw (l.1, l.2 (buffer_size (length l.0)) (omega (arith, buffer_size_min (length l.0)))) refl

pub unpacked-pack :
    (z : Zstd) (name buf : Text)
    → Lossless z
    → length buf ≤ buf_size
    → unpacked z (pack z name buf) ≡ buf
unfolding unpacked pack
unpacked-pack z name buf law h = ground (arith, unpacked-compress z buf law h)
