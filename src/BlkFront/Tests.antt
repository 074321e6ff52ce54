-- ===== src/BlkFront/Tests.antt =====
-- xen/blkfront.c: a request, and where the theorem on its segments applies.
use rumpuser_xen.Prelude.{◌≡◌, refl, arith}
use rumpuser_xen.Sched.{ok}
use rumpuser_xen.BlkFront.{Aiocb, BlkRequest, start_of, set_segments, blkfront_aio}
use rumpuser_xen.BlkFront.Segments.{held, blkfront_aio-exact}

-- 8192 bytes from the middle of a page on.
abbrev middle : Aiocb
middle = record { aio_buf = 10240; aio_nbytes = 8192; aio_offset = 1024 }

segments_run :
    let r = set_segments middle in
    (r.nr_segments ≡ 3)
    × (r.first_sect 0 ≡ 4)
    × (r.last_sect 0 ≡ 7)
    × (r.last_sect 1 ≡ 7)
    × (r.first_sect 2 ≡ 0)
    × (r.last_sect 2 ≡ 3)
segments_run = (refl, refl, refl, refl, refl, refl)

-- Of no bytes in the middle of a page there is a segment that ends before it starts.
empty_run :
    let r = set_segments (record middle { aio_nbytes = 0 }) in
    (r.first_sect 0 ≡ 4) × (r.last_sect 0 ≡ 3)
empty_run = (refl, refl)

blkfront_aio-exact_example :
    (r : BlkRequest) × (blkfront_aio 512 11 middle ≡ ok r)
    × (held r.nr_segments (start_of middle) r 18431 ≡ 1)
blkfront_aio-exact_example =
    blkfront_aio-exact 512 11 middle 18431 refl refl refl (omega arith) (omega arith)
