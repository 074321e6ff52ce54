-- ===== src/BlkFront.antt =====
-- xen/blkfront.c: the request that blkfront_aio makes of a buffer, with its segments, one for each page.
pub mod Segments
mod Tests
use rumpuser_xen.Prelude.{
  ℕ, zero, suc, ◌+◌, ◌-◌, ◌*◌, ◌/◌, ◌%◌, Bool, true, false, ◌&&◌, ◌||◌, ◌==◌, ◌/=◌, ltb, leb,
  if◌then◌else◌, update,
}
use rumpuser_xen.Malloc.Rump.{page_size}
use rumpuser_xen.Sched.{Outcome, ok, bug, hang}

-- The fields of struct blkfront_aiocb that are used here. The buffer ends at least a page below 2 ^ 64.
pub record Aiocb : Type 0 where
  pub aio_buf : ℕ
  pub aio_nbytes : ℕ
  pub aio_offset : ℕ

-- The part of a struct blkif_request that says what is read or written, before the pages are granted.
pub record BlkRequest : Type 0 where
  pub nr_segments : ℕ
  pub sector_number : ℕ
  pub first_sect : ℕ → ℕ
  pub last_sect : ℕ → ℕ

-- `start` and `end`, each a multiple of the page's size.
abbrev pub start_of : Aiocb → ℕ
start_of a = a.aio_buf / page_size * page_size

abbrev pub end_of : Aiocb → ℕ
end_of a = (a.aio_buf + a.aio_nbytes + page_size - 1) / page_size * page_size

abbrev pub pages_of : Aiocb → ℕ
pages_of a = (end_of a - start_of a) / page_size

-- The loop that presets the segments, and the two assignments behind it.
abbrev pub set_segments : Aiocb → BlkRequest
set_segments a =
    let n = pages_of a in
    record {
      nr_segments = n;
      sector_number = a.aio_offset / 512;
      first_sect = update (λ j. 0) 0 (a.aio_buf % page_size / 512);
      last_sect =
          update (λ j. page_size / 512 - 1) (n - 1)
            ((a.aio_buf + a.aio_nbytes - 1) % page_size / 512);
    }

-- The request, after the assertions; the sector's size is a power of two. `max` is BLKIF_MAX_SEGMENTS_PER_REQUEST of Xen's header.
-- Of no bytes at the start of a page there is no segment, and the assignments go out of bounds.
unfoldable pub blkfront_aio : ℕ → ℕ → Aiocb → Outcome BlkRequest
blkfront_aio sector_size max a =
    if a.aio_offset % sector_size /= 0
      || a.aio_nbytes % sector_size /= 0
      || a.aio_buf % sector_size /= 0
    then bug
    else if leb (pages_of a) max
    then (if pages_of a == 0 then bug else ok (set_segments a))
    else bug
