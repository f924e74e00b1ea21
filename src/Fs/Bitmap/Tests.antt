-- ===== src/Fs/Bitmap/Tests.antt =====
-- Runs on a map of 40 blocks, in two words.
use nku_os.Prelude.{◌≡◌, some, arith}
use nku_os.Fs.Bitmap.{Bitmap, Allocation, bitmap_alloc}
use nku_os.Fs.Bitmap.Alloc.{IsBitmap, Allocates, bitmap_alloc-Allocates}
use nku_os.Fs.Bitmap.Release.{Returned, bitmap_free-alloc}
use nku_os.Fs.Bitmap.Create.{bitmap_create-Fresh}

abbrev blocks : Bitmap
blocks = (bitmap_create-Fresh 40 (omega arith)).0

blocks-IsBitmap : IsBitmap blocks
blocks-IsBitmap = (bitmap_create-Fresh 40 (omega arith)).2.1

bitmap_alloc-Allocates_example :
    (r : Allocation) × (b' : Bitmap) × (bitmap_alloc blocks ≡ some (r, b')) × Allocates blocks r b'
bitmap_alloc-Allocates_example = bitmap_alloc-Allocates blocks blocks-IsBitmap

bitmap_free-alloc_example :
    (r : Allocation) × (b' : Bitmap) × (bitmap_alloc blocks ≡ some (r, b')) × Returned blocks r b'
bitmap_free-alloc_example = bitmap_free-alloc blocks blocks-IsBitmap
