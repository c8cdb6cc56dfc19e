-- ===== src/Font.antt =====
-- The glyphs of src/gui/Font.cpp.
pub mod Bounds
use swish_kernel.Prelude.{ℕ, List, [], ◌∷◌, get_or}

-- The 16 bytes of each of the characters from 32 to 126: a byte for each column of the upper half, then
-- of the lower half.
unfoldable pub glyphs : List (List ℕ)
glyphs =
    (0 ∷ 0 ∷ 0 ∷ 0 ∷ 0 ∷ 0 ∷ 0 ∷ 0 ∷ 0 ∷ 0 ∷ 0 ∷ 0 ∷ 0 ∷ 0 ∷ 0 ∷ 0 ∷ [])
    ∷ (0 ∷ 0 ∷ 0 ∷ 248 ∷ 0 ∷ 0 ∷ 0 ∷ 0 ∷ 0 ∷ 0 ∷ 0 ∷ 51 ∷ 48 ∷ 0 ∷ 0 ∷ 0 ∷ [])
    ∷ (0 ∷ 16 ∷ 12 ∷ 6 ∷ 16 ∷ 12 ∷ 6 ∷ 0 ∷ 0 ∷ 0 ∷ 0 ∷ 0 ∷ 0 ∷ 0 ∷ 0 ∷ 0 ∷ [])
    ∷ (64 ∷ 192 ∷ 120 ∷ 64 ∷ 192 ∷ 120 ∷ 64 ∷ 0 ∷ 4 ∷ 63 ∷ 4 ∷ 4 ∷ 63 ∷ 4 ∷ 4 ∷ 0 ∷ [])
    ∷ (0 ∷ 112 ∷ 136 ∷ 252 ∷ 8 ∷ 48 ∷ 0 ∷ 0 ∷ 0 ∷ 24 ∷ 32 ∷ 255 ∷ 33 ∷ 30 ∷ 0 ∷ 0 ∷ [])
    ∷ (240 ∷ 8 ∷ 240 ∷ 0 ∷ 224 ∷ 24 ∷ 0 ∷ 0 ∷ 0 ∷ 33 ∷ 28 ∷ 3 ∷ 30 ∷ 33 ∷ 30 ∷ 0 ∷ [])
    ∷ (0 ∷ 240 ∷ 8 ∷ 136 ∷ 112 ∷ 0 ∷ 0 ∷ 0 ∷ 30 ∷ 33 ∷ 35 ∷ 36 ∷ 25 ∷ 39 ∷ 33 ∷ 16 ∷ [])
    ∷ (16 ∷ 22 ∷ 14 ∷ 0 ∷ 0 ∷ 0 ∷ 0 ∷ 0 ∷ 0 ∷ 0 ∷ 0 ∷ 0 ∷ 0 ∷ 0 ∷ 0 ∷ 0 ∷ [])
    ∷ (0 ∷ 0 ∷ 0 ∷ 224 ∷ 24 ∷ 4 ∷ 2 ∷ 0 ∷ 0 ∷ 0 ∷ 0 ∷ 7 ∷ 24 ∷ 32 ∷ 64 ∷ 0 ∷ [])
    ∷ (0 ∷ 2 ∷ 4 ∷ 24 ∷ 224 ∷ 0 ∷ 0 ∷ 0 ∷ 0 ∷ 64 ∷ 32 ∷ 24 ∷ 7 ∷ 0 ∷ 0 ∷ 0 ∷ [])
    ∷ (64 ∷ 64 ∷ 128 ∷ 240 ∷ 128 ∷ 64 ∷ 64 ∷ 0 ∷ 2 ∷ 2 ∷ 1 ∷ 15 ∷ 1 ∷ 2 ∷ 2 ∷ 0 ∷ [])
    ∷ (0 ∷ 0 ∷ 0 ∷ 240 ∷ 0 ∷ 0 ∷ 0 ∷ 0 ∷ 1 ∷ 1 ∷ 1 ∷ 31 ∷ 1 ∷ 1 ∷ 1 ∷ 0 ∷ [])
    ∷ (0 ∷ 0 ∷ 0 ∷ 0 ∷ 0 ∷ 0 ∷ 0 ∷ 0 ∷ 128 ∷ 176 ∷ 112 ∷ 0 ∷ 0 ∷ 0 ∷ 0 ∷ 0 ∷ [])
    ∷ (0 ∷ 0 ∷ 0 ∷ 0 ∷ 0 ∷ 0 ∷ 0 ∷ 0 ∷ 0 ∷ 1 ∷ 1 ∷ 1 ∷ 1 ∷ 1 ∷ 1 ∷ 1 ∷ [])
    ∷ (0 ∷ 0 ∷ 0 ∷ 0 ∷ 0 ∷ 0 ∷ 0 ∷ 0 ∷ 0 ∷ 48 ∷ 48 ∷ 0 ∷ 0 ∷ 0 ∷ 0 ∷ 0 ∷ [])
    ∷ (0 ∷ 0 ∷ 0 ∷ 0 ∷ 128 ∷ 96 ∷ 24 ∷ 4 ∷ 0 ∷ 96 ∷ 24 ∷ 6 ∷ 1 ∷ 0 ∷ 0 ∷ 0 ∷ [])
    ∷ (0 ∷ 224 ∷ 16 ∷ 8 ∷ 8 ∷ 16 ∷ 224 ∷ 0 ∷ 0 ∷ 15 ∷ 16 ∷ 32 ∷ 32 ∷ 16 ∷ 15 ∷ 0 ∷ [])
    ∷ (0 ∷ 16 ∷ 16 ∷ 248 ∷ 0 ∷ 0 ∷ 0 ∷ 0 ∷ 0 ∷ 32 ∷ 32 ∷ 63 ∷ 32 ∷ 32 ∷ 0 ∷ 0 ∷ [])
    ∷ (0 ∷ 112 ∷ 8 ∷ 8 ∷ 8 ∷ 136 ∷ 112 ∷ 0 ∷ 0 ∷ 48 ∷ 40 ∷ 36 ∷ 34 ∷ 33 ∷ 48 ∷ 0 ∷ [])
    ∷ (0 ∷ 48 ∷ 8 ∷ 136 ∷ 136 ∷ 72 ∷ 48 ∷ 0 ∷ 0 ∷ 24 ∷ 32 ∷ 32 ∷ 32 ∷ 17 ∷ 14 ∷ 0 ∷ [])
    ∷ (0 ∷ 0 ∷ 192 ∷ 32 ∷ 16 ∷ 248 ∷ 0 ∷ 0 ∷ 0 ∷ 7 ∷ 4 ∷ 36 ∷ 36 ∷ 63 ∷ 36 ∷ 0 ∷ [])
    ∷ (0 ∷ 248 ∷ 8 ∷ 136 ∷ 136 ∷ 8 ∷ 8 ∷ 0 ∷ 0 ∷ 25 ∷ 33 ∷ 32 ∷ 32 ∷ 17 ∷ 14 ∷ 0 ∷ [])
    ∷ (0 ∷ 224 ∷ 16 ∷ 136 ∷ 136 ∷ 24 ∷ 0 ∷ 0 ∷ 0 ∷ 15 ∷ 17 ∷ 32 ∷ 32 ∷ 17 ∷ 14 ∷ 0 ∷ [])
    ∷ (0 ∷ 56 ∷ 8 ∷ 8 ∷ 200 ∷ 56 ∷ 8 ∷ 0 ∷ 0 ∷ 0 ∷ 0 ∷ 63 ∷ 0 ∷ 0 ∷ 0 ∷ 0 ∷ [])
    ∷ (0 ∷ 112 ∷ 136 ∷ 8 ∷ 8 ∷ 136 ∷ 112 ∷ 0 ∷ 0 ∷ 28 ∷ 34 ∷ 33 ∷ 33 ∷ 34 ∷ 28 ∷ 0 ∷ [])
    ∷ (0 ∷ 224 ∷ 16 ∷ 8 ∷ 8 ∷ 16 ∷ 224 ∷ 0 ∷ 0 ∷ 0 ∷ 49 ∷ 34 ∷ 34 ∷ 17 ∷ 15 ∷ 0 ∷ [])
    ∷ (0 ∷ 0 ∷ 0 ∷ 192 ∷ 192 ∷ 0 ∷ 0 ∷ 0 ∷ 0 ∷ 0 ∷ 0 ∷ 48 ∷ 48 ∷ 0 ∷ 0 ∷ 0 ∷ [])
    ∷ (0 ∷ 0 ∷ 0 ∷ 128 ∷ 0 ∷ 0 ∷ 0 ∷ 0 ∷ 0 ∷ 0 ∷ 128 ∷ 96 ∷ 0 ∷ 0 ∷ 0 ∷ 0 ∷ [])
    ∷ (0 ∷ 0 ∷ 128 ∷ 64 ∷ 32 ∷ 16 ∷ 8 ∷ 0 ∷ 0 ∷ 1 ∷ 2 ∷ 4 ∷ 8 ∷ 16 ∷ 32 ∷ 0 ∷ [])
    ∷ (64 ∷ 64 ∷ 64 ∷ 64 ∷ 64 ∷ 64 ∷ 64 ∷ 0 ∷ 4 ∷ 4 ∷ 4 ∷ 4 ∷ 4 ∷ 4 ∷ 4 ∷ 0 ∷ [])
    ∷ (0 ∷ 8 ∷ 16 ∷ 32 ∷ 64 ∷ 128 ∷ 0 ∷ 0 ∷ 0 ∷ 32 ∷ 16 ∷ 8 ∷ 4 ∷ 2 ∷ 1 ∷ 0 ∷ [])
    ∷ (0 ∷ 112 ∷ 72 ∷ 8 ∷ 8 ∷ 8 ∷ 240 ∷ 0 ∷ 0 ∷ 0 ∷ 0 ∷ 48 ∷ 54 ∷ 1 ∷ 0 ∷ 0 ∷ [])
    ∷ (192 ∷ 48 ∷ 200 ∷ 40 ∷ 232 ∷ 16 ∷ 224 ∷ 0 ∷ 7 ∷ 24 ∷ 39 ∷ 36 ∷ 35 ∷ 20 ∷ 11 ∷ 0 ∷ [])
    ∷ (0 ∷ 0 ∷ 192 ∷ 56 ∷ 224 ∷ 0 ∷ 0 ∷ 0 ∷ 32 ∷ 60 ∷ 35 ∷ 2 ∷ 2 ∷ 39 ∷ 56 ∷ 32 ∷ [])
    ∷ (8 ∷ 248 ∷ 136 ∷ 136 ∷ 136 ∷ 112 ∷ 0 ∷ 0 ∷ 32 ∷ 63 ∷ 32 ∷ 32 ∷ 32 ∷ 17 ∷ 14 ∷ 0 ∷ [])
    ∷ (192 ∷ 48 ∷ 8 ∷ 8 ∷ 8 ∷ 8 ∷ 56 ∷ 0 ∷ 7 ∷ 24 ∷ 32 ∷ 32 ∷ 32 ∷ 16 ∷ 8 ∷ 0 ∷ [])
    ∷ (8 ∷ 248 ∷ 8 ∷ 8 ∷ 8 ∷ 16 ∷ 224 ∷ 0 ∷ 32 ∷ 63 ∷ 32 ∷ 32 ∷ 32 ∷ 16 ∷ 15 ∷ 0 ∷ [])
    ∷ (8 ∷ 248 ∷ 136 ∷ 136 ∷ 232 ∷ 8 ∷ 16 ∷ 0 ∷ 32 ∷ 63 ∷ 32 ∷ 32 ∷ 35 ∷ 32 ∷ 24 ∷ 0 ∷ [])
    ∷ (8 ∷ 248 ∷ 136 ∷ 136 ∷ 232 ∷ 8 ∷ 16 ∷ 0 ∷ 32 ∷ 63 ∷ 32 ∷ 0 ∷ 3 ∷ 0 ∷ 0 ∷ 0 ∷ [])
    ∷ (192 ∷ 48 ∷ 8 ∷ 8 ∷ 8 ∷ 56 ∷ 0 ∷ 0 ∷ 7 ∷ 24 ∷ 32 ∷ 32 ∷ 34 ∷ 30 ∷ 2 ∷ 0 ∷ [])
    ∷ (8 ∷ 248 ∷ 8 ∷ 0 ∷ 0 ∷ 8 ∷ 248 ∷ 8 ∷ 32 ∷ 63 ∷ 33 ∷ 1 ∷ 1 ∷ 33 ∷ 63 ∷ 32 ∷ [])
    ∷ (0 ∷ 8 ∷ 8 ∷ 248 ∷ 8 ∷ 8 ∷ 0 ∷ 0 ∷ 0 ∷ 32 ∷ 32 ∷ 63 ∷ 32 ∷ 32 ∷ 0 ∷ 0 ∷ [])
    ∷ (0 ∷ 0 ∷ 8 ∷ 8 ∷ 248 ∷ 8 ∷ 8 ∷ 0 ∷ 192 ∷ 128 ∷ 128 ∷ 128 ∷ 127 ∷ 0 ∷ 0 ∷ 0 ∷ [])
    ∷ (8 ∷ 248 ∷ 136 ∷ 192 ∷ 40 ∷ 24 ∷ 8 ∷ 0 ∷ 32 ∷ 63 ∷ 32 ∷ 1 ∷ 38 ∷ 56 ∷ 32 ∷ 0 ∷ [])
    ∷ (8 ∷ 248 ∷ 8 ∷ 0 ∷ 0 ∷ 0 ∷ 0 ∷ 0 ∷ 32 ∷ 63 ∷ 32 ∷ 32 ∷ 32 ∷ 32 ∷ 48 ∷ 0 ∷ [])
    ∷ (8 ∷ 248 ∷ 248 ∷ 0 ∷ 248 ∷ 248 ∷ 8 ∷ 0 ∷ 32 ∷ 63 ∷ 0 ∷ 63 ∷ 0 ∷ 63 ∷ 32 ∷ 0 ∷ [])
    ∷ (8 ∷ 248 ∷ 48 ∷ 192 ∷ 0 ∷ 8 ∷ 248 ∷ 8 ∷ 32 ∷ 63 ∷ 32 ∷ 0 ∷ 7 ∷ 24 ∷ 63 ∷ 0 ∷ [])
    ∷ (224 ∷ 16 ∷ 8 ∷ 8 ∷ 8 ∷ 16 ∷ 224 ∷ 0 ∷ 15 ∷ 16 ∷ 32 ∷ 32 ∷ 32 ∷ 16 ∷ 15 ∷ 0 ∷ [])
    ∷ (8 ∷ 248 ∷ 8 ∷ 8 ∷ 8 ∷ 8 ∷ 240 ∷ 0 ∷ 32 ∷ 63 ∷ 33 ∷ 1 ∷ 1 ∷ 1 ∷ 0 ∷ 0 ∷ [])
    ∷ (224 ∷ 16 ∷ 8 ∷ 8 ∷ 8 ∷ 16 ∷ 224 ∷ 0 ∷ 15 ∷ 24 ∷ 36 ∷ 36 ∷ 56 ∷ 80 ∷ 79 ∷ 0 ∷ [])
    ∷ (8 ∷ 248 ∷ 136 ∷ 136 ∷ 136 ∷ 136 ∷ 112 ∷ 0 ∷ 32 ∷ 63 ∷ 32 ∷ 0 ∷ 3 ∷ 12 ∷ 48 ∷ 32 ∷ [])
    ∷ (0 ∷ 112 ∷ 136 ∷ 8 ∷ 8 ∷ 8 ∷ 56 ∷ 0 ∷ 0 ∷ 56 ∷ 32 ∷ 33 ∷ 33 ∷ 34 ∷ 28 ∷ 0 ∷ [])
    ∷ (24 ∷ 8 ∷ 8 ∷ 248 ∷ 8 ∷ 8 ∷ 24 ∷ 0 ∷ 0 ∷ 0 ∷ 32 ∷ 63 ∷ 32 ∷ 0 ∷ 0 ∷ 0 ∷ [])
    ∷ (8 ∷ 248 ∷ 8 ∷ 0 ∷ 0 ∷ 8 ∷ 248 ∷ 8 ∷ 0 ∷ 31 ∷ 32 ∷ 32 ∷ 32 ∷ 32 ∷ 31 ∷ 0 ∷ [])
    ∷ (8 ∷ 120 ∷ 136 ∷ 0 ∷ 0 ∷ 200 ∷ 56 ∷ 8 ∷ 0 ∷ 0 ∷ 7 ∷ 56 ∷ 14 ∷ 1 ∷ 0 ∷ 0 ∷ [])
    ∷ (248 ∷ 8 ∷ 0 ∷ 248 ∷ 0 ∷ 8 ∷ 248 ∷ 0 ∷ 3 ∷ 60 ∷ 7 ∷ 0 ∷ 7 ∷ 60 ∷ 3 ∷ 0 ∷ [])
    ∷ (8 ∷ 24 ∷ 104 ∷ 128 ∷ 128 ∷ 104 ∷ 24 ∷ 8 ∷ 32 ∷ 48 ∷ 44 ∷ 3 ∷ 3 ∷ 44 ∷ 48 ∷ 32 ∷ [])
    ∷ (8 ∷ 56 ∷ 200 ∷ 0 ∷ 200 ∷ 56 ∷ 8 ∷ 0 ∷ 0 ∷ 0 ∷ 32 ∷ 63 ∷ 32 ∷ 0 ∷ 0 ∷ 0 ∷ [])
    ∷ (16 ∷ 8 ∷ 8 ∷ 8 ∷ 200 ∷ 56 ∷ 8 ∷ 0 ∷ 32 ∷ 56 ∷ 38 ∷ 33 ∷ 32 ∷ 32 ∷ 24 ∷ 0 ∷ [])
    ∷ (0 ∷ 0 ∷ 0 ∷ 254 ∷ 2 ∷ 2 ∷ 2 ∷ 0 ∷ 0 ∷ 0 ∷ 0 ∷ 127 ∷ 64 ∷ 64 ∷ 64 ∷ 0 ∷ [])
    ∷ (0 ∷ 12 ∷ 48 ∷ 192 ∷ 0 ∷ 0 ∷ 0 ∷ 0 ∷ 0 ∷ 0 ∷ 0 ∷ 1 ∷ 6 ∷ 56 ∷ 192 ∷ 0 ∷ [])
    ∷ (0 ∷ 2 ∷ 2 ∷ 2 ∷ 254 ∷ 0 ∷ 0 ∷ 0 ∷ 0 ∷ 64 ∷ 64 ∷ 64 ∷ 127 ∷ 0 ∷ 0 ∷ 0 ∷ [])
    ∷ (0 ∷ 0 ∷ 4 ∷ 2 ∷ 2 ∷ 2 ∷ 4 ∷ 0 ∷ 0 ∷ 0 ∷ 0 ∷ 0 ∷ 0 ∷ 0 ∷ 0 ∷ 0 ∷ [])
    ∷ (0 ∷ 0 ∷ 0 ∷ 0 ∷ 0 ∷ 0 ∷ 0 ∷ 0 ∷ 128 ∷ 128 ∷ 128 ∷ 128 ∷ 128 ∷ 128 ∷ 128 ∷ 128 ∷ [])
    ∷ (0 ∷ 2 ∷ 2 ∷ 4 ∷ 0 ∷ 0 ∷ 0 ∷ 0 ∷ 0 ∷ 0 ∷ 0 ∷ 0 ∷ 0 ∷ 0 ∷ 0 ∷ 0 ∷ [])
    ∷ (0 ∷ 0 ∷ 128 ∷ 128 ∷ 128 ∷ 128 ∷ 0 ∷ 0 ∷ 0 ∷ 25 ∷ 36 ∷ 34 ∷ 34 ∷ 34 ∷ 63 ∷ 32 ∷ [])
    ∷ (8 ∷ 248 ∷ 0 ∷ 128 ∷ 128 ∷ 0 ∷ 0 ∷ 0 ∷ 0 ∷ 63 ∷ 17 ∷ 32 ∷ 32 ∷ 17 ∷ 14 ∷ 0 ∷ [])
    ∷ (0 ∷ 0 ∷ 0 ∷ 128 ∷ 128 ∷ 128 ∷ 0 ∷ 0 ∷ 0 ∷ 14 ∷ 17 ∷ 32 ∷ 32 ∷ 32 ∷ 17 ∷ 0 ∷ [])
    ∷ (0 ∷ 0 ∷ 0 ∷ 128 ∷ 128 ∷ 136 ∷ 248 ∷ 0 ∷ 0 ∷ 14 ∷ 17 ∷ 32 ∷ 32 ∷ 16 ∷ 63 ∷ 32 ∷ [])
    ∷ (0 ∷ 0 ∷ 128 ∷ 128 ∷ 128 ∷ 128 ∷ 0 ∷ 0 ∷ 0 ∷ 31 ∷ 34 ∷ 34 ∷ 34 ∷ 34 ∷ 19 ∷ 0 ∷ [])
    ∷ (0 ∷ 128 ∷ 128 ∷ 240 ∷ 136 ∷ 136 ∷ 136 ∷ 24 ∷ 0 ∷ 32 ∷ 32 ∷ 63 ∷ 32 ∷ 32 ∷ 0 ∷ 0 ∷ [])
    ∷ (0 ∷ 0 ∷ 128 ∷ 128 ∷ 128 ∷ 128 ∷ 128 ∷ 0 ∷ 0 ∷ 107 ∷ 148 ∷ 148 ∷ 148 ∷ 147 ∷ 96 ∷ 0 ∷ [])
    ∷ (8 ∷ 248 ∷ 0 ∷ 128 ∷ 128 ∷ 128 ∷ 0 ∷ 0 ∷ 32 ∷ 63 ∷ 33 ∷ 0 ∷ 0 ∷ 32 ∷ 63 ∷ 32 ∷ [])
    ∷ (0 ∷ 128 ∷ 152 ∷ 152 ∷ 0 ∷ 0 ∷ 0 ∷ 0 ∷ 0 ∷ 32 ∷ 32 ∷ 63 ∷ 32 ∷ 32 ∷ 0 ∷ 0 ∷ [])
    ∷ (0 ∷ 0 ∷ 0 ∷ 128 ∷ 152 ∷ 152 ∷ 0 ∷ 0 ∷ 0 ∷ 192 ∷ 128 ∷ 128 ∷ 128 ∷ 127 ∷ 0 ∷ 0 ∷ [])
    ∷ (8 ∷ 248 ∷ 0 ∷ 0 ∷ 128 ∷ 128 ∷ 128 ∷ 0 ∷ 32 ∷ 63 ∷ 36 ∷ 2 ∷ 45 ∷ 48 ∷ 32 ∷ 0 ∷ [])
    ∷ (0 ∷ 8 ∷ 8 ∷ 248 ∷ 0 ∷ 0 ∷ 0 ∷ 0 ∷ 0 ∷ 32 ∷ 32 ∷ 63 ∷ 32 ∷ 32 ∷ 0 ∷ 0 ∷ [])
    ∷ (128 ∷ 128 ∷ 128 ∷ 128 ∷ 128 ∷ 128 ∷ 128 ∷ 0 ∷ 32 ∷ 63 ∷ 32 ∷ 0 ∷ 63 ∷ 32 ∷ 0 ∷ 63 ∷ [])
    ∷ (128 ∷ 128 ∷ 0 ∷ 128 ∷ 128 ∷ 128 ∷ 0 ∷ 0 ∷ 32 ∷ 63 ∷ 33 ∷ 0 ∷ 0 ∷ 32 ∷ 63 ∷ 32 ∷ [])
    ∷ (0 ∷ 0 ∷ 128 ∷ 128 ∷ 128 ∷ 128 ∷ 0 ∷ 0 ∷ 0 ∷ 31 ∷ 32 ∷ 32 ∷ 32 ∷ 32 ∷ 31 ∷ 0 ∷ [])
    ∷ (128 ∷ 128 ∷ 0 ∷ 128 ∷ 128 ∷ 0 ∷ 0 ∷ 0 ∷ 128 ∷ 255 ∷ 161 ∷ 32 ∷ 32 ∷ 17 ∷ 14 ∷ 0 ∷ [])
    ∷ (0 ∷ 0 ∷ 0 ∷ 128 ∷ 128 ∷ 128 ∷ 128 ∷ 0 ∷ 0 ∷ 14 ∷ 17 ∷ 32 ∷ 32 ∷ 160 ∷ 255 ∷ 128 ∷ [])
    ∷ (128 ∷ 128 ∷ 128 ∷ 0 ∷ 128 ∷ 128 ∷ 128 ∷ 0 ∷ 32 ∷ 32 ∷ 63 ∷ 33 ∷ 32 ∷ 0 ∷ 1 ∷ 0 ∷ [])
    ∷ (0 ∷ 0 ∷ 128 ∷ 128 ∷ 128 ∷ 128 ∷ 128 ∷ 0 ∷ 0 ∷ 51 ∷ 36 ∷ 36 ∷ 36 ∷ 36 ∷ 25 ∷ 0 ∷ [])
    ∷ (0 ∷ 128 ∷ 128 ∷ 224 ∷ 128 ∷ 128 ∷ 0 ∷ 0 ∷ 0 ∷ 0 ∷ 0 ∷ 31 ∷ 32 ∷ 32 ∷ 0 ∷ 0 ∷ [])
    ∷ (128 ∷ 128 ∷ 0 ∷ 0 ∷ 0 ∷ 128 ∷ 128 ∷ 0 ∷ 0 ∷ 31 ∷ 32 ∷ 32 ∷ 32 ∷ 16 ∷ 63 ∷ 32 ∷ [])
    ∷ (128 ∷ 128 ∷ 128 ∷ 0 ∷ 0 ∷ 128 ∷ 128 ∷ 128 ∷ 0 ∷ 1 ∷ 14 ∷ 48 ∷ 8 ∷ 6 ∷ 1 ∷ 0 ∷ [])
    ∷ (128 ∷ 128 ∷ 0 ∷ 128 ∷ 0 ∷ 128 ∷ 128 ∷ 128 ∷ 15 ∷ 48 ∷ 12 ∷ 3 ∷ 12 ∷ 48 ∷ 15 ∷ 0 ∷ [])
    ∷ (0 ∷ 128 ∷ 128 ∷ 0 ∷ 128 ∷ 128 ∷ 128 ∷ 0 ∷ 0 ∷ 32 ∷ 49 ∷ 46 ∷ 14 ∷ 49 ∷ 32 ∷ 0 ∷ [])
    ∷ (128 ∷ 128 ∷ 128 ∷ 0 ∷ 0 ∷ 128 ∷ 128 ∷ 128 ∷ 128 ∷ 129 ∷ 142 ∷ 112 ∷ 24 ∷ 6 ∷ 1 ∷ 0 ∷ [])
    ∷ (0 ∷ 128 ∷ 128 ∷ 128 ∷ 128 ∷ 128 ∷ 128 ∷ 0 ∷ 0 ∷ 33 ∷ 48 ∷ 44 ∷ 34 ∷ 33 ∷ 48 ∷ 0 ∷ [])
    ∷ (0 ∷ 0 ∷ 0 ∷ 0 ∷ 128 ∷ 124 ∷ 2 ∷ 2 ∷ 0 ∷ 0 ∷ 0 ∷ 0 ∷ 0 ∷ 63 ∷ 64 ∷ 64 ∷ [])
    ∷ (0 ∷ 0 ∷ 0 ∷ 0 ∷ 255 ∷ 0 ∷ 0 ∷ 0 ∷ 0 ∷ 0 ∷ 0 ∷ 0 ∷ 255 ∷ 0 ∷ 0 ∷ 0 ∷ [])
    ∷ (0 ∷ 2 ∷ 2 ∷ 124 ∷ 128 ∷ 0 ∷ 0 ∷ 0 ∷ 0 ∷ 64 ∷ 64 ∷ 63 ∷ 0 ∷ 0 ∷ 0 ∷ 0 ∷ [])
    ∷ (0 ∷ 6 ∷ 1 ∷ 1 ∷ 2 ∷ 2 ∷ 4 ∷ 4 ∷ 0 ∷ 0 ∷ 0 ∷ 0 ∷ 0 ∷ 0 ∷ 0 ∷ 0 ∷ [])
    ∷ []

-- `font8x16[index][cx]`, and 0 out of range.
unfoldable pub font8x16 : ℕ → ℕ → ℕ
unfolding glyphs
font8x16 index cx = get_or (get_or glyphs index []) cx 0
