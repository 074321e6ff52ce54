-- ===== src/Malloc.antt =====
-- lib/memalloc.c: the allocator behind malloc, with free lists of blocks whose sizes are powers of two.
-- It is modelled as the kernel builds it, without RCHECK, MSTATS and MEMALLOC_TESTING, on a 64-bit
-- machine with pages of 4096 bytes. A free list is the list of its blocks; the word `ov_next` at the start of
-- each is written to memory all the same, since it lies over `ov_alignpad`.
pub mod Memory
pub mod Sizes
pub mod Blocks
pub mod More
pub mod Take
pub mod Kept
pub mod Give
pub mod Regrow
pub mod Rump
mod Tests
use Prim.Native.Nat.{bit_and}
use rumpuser_xen.Prelude.{
  ℕ, zero, suc, ◌+◌, ◌-◌, ◌*◌, ◌/◌, ◌%◌, ◌^◌, Bool, true, false, Option, none, some, List, [], ◌∷◌,
  ◌==◌, ◌/=◌, ltb, leb, if◌then◌else◌, update,
}
use rumpuser_xen.Sched.{Outcome, ok, bug, hang}
use rumpuser_xen.Pages.{Pages, alloc_pages}

-- So many bytes of a number, the lowest first, written to memory and read from it.
unfoldable pub store : ℕ → ℕ → ℕ → (ℕ → ℕ) → ℕ → ℕ
store zero a v mem = mem
store (suc n) a v mem = store n (a + 1) (v / 256) (update mem a (v % 256))

unfoldable pub load : ℕ → ℕ → (ℕ → ℕ) → ℕ
load zero a mem = 0
load (suc n) a mem = mem a + 256 * load n (a + 1) mem

-- The page allocator, the free lists by bucket, and memory by the byte. The header of a block in use lies
-- before what the caller got: `ov_alignpad` in 8 bytes, `ov_magic`, `ov_index`, and a pad to 16 bytes.
pub record Heap : Type 0 where
  pub pages : Pages
  pub nextf : ℕ → List ℕ
  pub mem : ℕ → ℕ

abbrev pub magic : ℕ
magic = 239

abbrev pub nbuckets : ℕ
nbuckets = 30

abbrev pub pagebucket : ℕ
pagebucket = 7

-- The loop that finds the bucket of a page, with fuel.
unfoldable pub page_bucket_loop : ℕ → ℕ → ℕ → ℕ → ℕ
page_bucket_loop zero pagesz amt bucket = bucket
page_bucket_loop (suc n) pagesz amt bucket =
    let rest = page_bucket_loop n pagesz (amt * 2 % 2 ^ 32) (bucket + 1) in
    if ltb amt pagesz then rest else bucket

-- `x & ~(align - 1)` for a power of two.
abbrev pub round_down : ℕ → ℕ → ℕ
round_down x align = x / align * align

-- The loop that finds the bucket, with fuel; none where `amt` becomes 0.
unfoldable pub pick_bucket : ℕ → ℕ → ℕ → ℕ → Option ℕ
pick_bucket zero bytes amt bucket = none
pick_bucket (suc n) bytes amt bucket =
    let amt' = amt * 2 % 2 ^ 32 in
    let rest = pick_bucket n bytes amt' (bucket + 1) in
    if ltb amt bytes then (if amt' == 0 then none else rest) else some bucket

abbrev pub head_or_null : List ℕ → ℕ
head_or_null [] = 0
head_or_null (op ∷ ops) = op

abbrev pub is_null : List ℕ → Bool
is_null [] = true
is_null (op ∷ ops) = false

-- `n` blocks of one size, one behind the other, and the links that are written into them.
abbrev pub carve : ℕ → ℕ → ℕ → List ℕ
carve zero op sz = []
carve (suc n) op sz = op ∷ carve n (op + sz) sz

unfoldable pub write_links : List ℕ → (ℕ → ℕ) → ℕ → ℕ
write_links [] mem = mem
write_links (op ∷ ops) mem = write_links ops (store 8 op (head_or_null ops) mem)

-- What alloc_pages gives, as an address.
abbrev pub page_address : Option ℕ × Pages → ℕ × Pages
page_address (none, s) = (0, s)
page_address (some ch, s) = (ch * 4096, s)

unfoldable pub corealloc : ℕ → Pages → ℕ × Pages
corealloc shift s = page_address (alloc_pages shift s)

unfoldable pub morecore : ℕ → Heap → Heap
morecore bucket h =
    let small = ltb bucket pagebucket in
    let nblks = if small then 4096 / 2 ^ (bucket + 5) else 1 in
    let sz = if small then 4096 / nblks else 0 in
    let (op, s') = corealloc (if small then 0 else bucket - pagebucket) h.pages in
    let h' = record h { pages = s' } in
    let blocks = carve nblks op sz in
    if op == 0
    then h'
    else record h' { nextf = update h'.nextf bucket blocks; mem = write_links blocks h'.mem }

-- The first block of a list, marked as in use: the address for the caller, with the block taken off the list.
unfoldable pub take_block : ℕ → ℕ → ℕ → List ℕ → Heap → ℕ × Heap
take_block align bucket op rest h =
    let rv = round_down (op + 16 + align - 1) align in
    let hdr = rv - 16 in
    let mem1 = update (update h.mem (hdr + 8) magic) (hdr + 9) bucket in
    (rv, record h { nextf = update h.nextf bucket rest; mem = store 8 hdr (rv - op) mem1 })

abbrev pub take_first : ℕ → ℕ → List ℕ → Heap → ℕ × Heap
take_first align bucket [] h = (0, h)
take_first align bucket (op ∷ rest) h = take_block align bucket op rest h

-- The bucket's first block, after morecore if it has none.
unfoldable pub take_from : ℕ → ℕ → Heap → ℕ × Heap
take_from align bucket h =
    let h' = if is_null (h.nextf bucket) then morecore bucket h else h in
    take_first align bucket (h'.nextf bucket) h'

abbrev pub take_picked : ℕ → Option ℕ → Heap → ℕ × Heap
take_picked align none h = (0, h)
take_picked align (some bucket) h = take_from align bucket h

-- The bucket for so many bytes, the header counted.
unfoldable pub bucket_for : ℕ → Option ℕ
bucket_for allocbytes =
    if leb allocbytes 4096
    then pick_bucket 28 allocbytes 32 0
    else pick_bucket 28 allocbytes 4096 pagebucket

abbrev pub memalloc_aligned : ℕ → ℕ → Heap → ℕ × Heap
memalloc_aligned nbytes align h =
    take_picked align (bucket_for ((nbytes + round_down (16 + align - 1) align) % 2 ^ 64)) h

-- The address, or 0 for NULL.
unfoldable pub memalloc : ℕ → ℕ → Heap → ℕ × Heap
memalloc nbytes align h =
    if bit_and (align - 1) align /= 0
    then (0, h)
    else memalloc_aligned nbytes (if ltb align 8 then 8 else align) h

abbrev pub malloc : ℕ → Heap → ℕ × Heap
malloc size h = memalloc size 8 h

-- The error, the address that is stored if there is none, and the heap.
abbrev pub stored_address : ℕ × Heap → ℕ × Option ℕ × Heap
stored_address (v, h) = if v == 0 then (10, none, h) else (0, some v, h)

abbrev pub posix_memalign : ℕ → ℕ → Heap → ℕ × Option ℕ × Heap
posix_memalign nbytes align h = stored_address (memalloc nbytes align h)

unfoldable pub clear_bytes : ℕ → ℕ → (ℕ → ℕ) → ℕ → ℕ
clear_bytes zero a mem = mem
clear_bytes (suc n) a mem = clear_bytes n (a + 1) (update mem a 0)

abbrev pub cleared : ℕ → ℕ × Heap → ℕ × Heap
cleared tot (v, h) = if v == 0 then (0, h) else (v, record h { mem = clear_bytes tot v h.mem })

abbrev pub calloc : ℕ → ℕ → Heap → ℕ × Heap
calloc n size h = let tot = n * size % 2 ^ 64 in cleared tot (malloc tot h)

-- A block goes back to its list.
abbrev pub give_back : ℕ → ℕ → Heap → Outcome Heap
give_back origp size h =
    if leb nbuckets size
    then bug
    else ok (record h {
      mem = store 8 origp (head_or_null (h.nextf size)) h.mem;
      nextf = update h.nextf size (origp ∷ h.nextf size);
    })

unfoldable pub memfree : ℕ → Heap → Outcome Heap
memfree cp h =
    let op = cp - 16 in
    if cp == 0
    then ok h
    else if h.mem (op + 8) /= magic
    then ok h
    else give_back ((cp + 2 ^ 64 - load 8 op h.mem) % 2 ^ 64) (h.mem (op + 9)) h

-- memcpy, of memory that does not overlap.
unfoldable pub copy_bytes : ℕ → ℕ → ℕ → (ℕ → ℕ) → ℕ → ℕ
copy_bytes zero to from mem = mem
copy_bytes (suc n) to from mem = copy_bytes n (to + 1) (from + 1) (update mem to (mem from))

abbrev pub with_address : ℕ → Outcome Heap → Outcome (ℕ × Heap)
with_address np (ok h) = ok (np, h)
with_address np bug = bug
with_address np hang = hang

-- `1 << (size + MINSHIFT)`, an int, as 64 bits: negative for the shift 31, beyond which no block goes.
abbrev pub block_bytes : ℕ → ℕ
block_bytes size = if ltb (size + 5) 31 then 2 ^ (size + 5) else 2 ^ 64 - 2 ^ 31

-- The bytes of the block less the pad and the header, in 64 bits.
unfoldable pub room_of : ℕ → (ℕ → ℕ) → ℕ
room_of cp mem =
    (block_bytes (mem (cp - 16 + 9)) + 2 ^ 64 - (load 8 (cp - 16) mem + 16) % 2 ^ 64) % 2 ^ 64

-- What memrealloc does once it has the new block.
abbrev pub move_to : ℕ → ℕ → ℕ × Heap → Outcome (ℕ × Heap)
move_to cp room (np, h') =
    if np == 0
    then ok (0, h')
    else with_address np (memfree cp (record h' { mem = copy_bytes room np cp h'.mem }))

unfoldable pub memrealloc : ℕ → ℕ → Heap → Outcome (ℕ × Heap)
memrealloc cp nbytes h =
    if cp == 0
    then ok (memalloc nbytes 8 h)
    else if nbytes == 0
    then with_address 0 (memfree cp h)
    else if leb nbytes (room_of cp h.mem)
    then ok (cp, h)
    else move_to cp (room_of cp h.mem) (memalloc nbytes 8 h)
