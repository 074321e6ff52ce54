-- ===== src/Blocks/Opening.antt =====
-- rumphyper_base.c: what opening and closing a block device come to.
use rumpuser_xen.Prelude.{
  ℕ, ◌+◌, ◌-◌, ◌%◌, ◌^◌, ◌<◌, ◌≡◌, ◌≢◌, refl, sym, ap, ◌∙◌, inl, inr, Bool, true, false, ◌&&◌, ◌||◌,
  none, some, List, [], ◌∷◌, arith, ◌==◌, ◌/=◌, ltb, leb, if◌then◌else◌, update, update_self,
  update_ne, Bool-cases, ==_iff, ne_of_==,
}
use rumpuser_xen.Blocks.{
  nblkdev, blkfdoff, success, one, Access, rdonly, wronly, rdwr, Info, Blocks, devopen, devname2num,
  opened, open_device, close_device, sized, getfileinfo,
}

abbrev pub may_write : Access → ℕ → ℕ → Bool
may_write rdonly mode o_rdwr = true
may_write acc mode o_rdwr = mode == o_rdwr

-- The name of a device.
abbrev pub blk_name : ℕ → List ℕ
blk_name num = 98 ∷ 108 ∷ 107 ∷ (48 + num) ∷ []

devname2num-blk_name : (num : ℕ) → num < nblkdev → devname2num (blk_name num) ≡ some num
unfolding devname2num
devname2num-blk_name num l =
    let e : (leb 48 (48 + num) && ltb (48 + num - 48) nblkdev) ≡ true = ground (arith, l) in
    let z : 48 + num - 48 ≡ num = omega arith in rw e (ap some z)

opened_lem :
    (o_rdwr : ℕ) (acc : Access) (num : ℕ) (s : Blocks)
    → may_write acc (s.blkinfos num).mode o_rdwr ≡ true
    → opened o_rdwr acc num (success, s) ≡ (success, some (blkfdoff + num), s)
unfolding opened
opened_lem o_rdwr rdonly num s may = refl
opened_lem o_rdwr wronly num s may =
    let e : ((s.blkinfos num).mode /= o_rdwr) ≡ false = ground (arith, may) in rw e refl
opened_lem o_rdwr rdwr num s may =
    let e : ((s.blkinfos num).mode /= o_rdwr) ≡ false = ground (arith, may) in rw e refl

-- The descriptor's number is a device's, and the counts are as given.
close_device_lem :
    (num count : ℕ) (s : Blocks)
    → num < nblkdev
    → (s.blkopen num + 2 ^ 32 - 1) % 2 ^ 32 ≡ count
    → let s' = record s { blkopen = update s.blkopen num count } in
      close_device (blkfdoff + num) s ≡ (
        if count == 0
        then (
          success,
          record s' { blkdevs = update s'.blkdevs num 0; shut = s'.blkdevs num ∷ s'.shut },
        )
        else (success, s'))
unfolding close_device
close_device_lem num count s l z =
    let rfd : (blkfdoff + num + 2 ^ 32 - blkfdoff) % 2 ^ 32 ≡ num = omega (arith, l) in
    let fine : (leb (2 ^ 31) num || ltb nblkdev (num + 1)) ≡ false = ground (arith, l) in
    rw rfd (rw fine (rw z refl))

-- A device that is not open and can be set up, with the access that is asked for: rumpuser_open gives its
-- descriptor, and the close of it shuts exactly this device down and leaves no device in the table at
-- its number, with all counts as they were.
pub close_device-open_device :
    (o_rdwr num dev : ℕ) (acc : Access) (info : Info) (s : Blocks)
    → num < nblkdev
    → s.blkopen num ≡ 0
    → dev ≢ 0
    → may_write acc info.mode o_rdwr ≡ true
    → (fd : ℕ) × (s1 : Blocks) × (s2 : Blocks) × (open_device o_rdwr
          (blk_name num)
          true
          acc
          (dev, info)
          s
        ≡ (success, some fd, s1))
      × (s1.blkdevs num ≡ dev)
      × (s1.blkopen num ≡ 1)
      × (close_device fd s1 ≡ (success, s2))
      × (s2.shut ≡ dev ∷ s.shut)
      × (s2.blkdevs num ≡ 0)
      × ((q : ℕ) → s2.blkopen q ≡ s.blkopen q)
unfolding open_device devopen
close_device-open_device o_rdwr num dev acc info s l z ne may =
    let name = devname2num-blk_name num l in
    let s1 = record s {
      blkdevs = update s.blkdevs num dev;
      blkinfos = update s.blkinfos num info;
      blkopen = update s.blkopen num 1;
    } in
    let open1 = update_self s.blkopen num 1 in
    let made = update_self s.blkdevs num dev in
    let closed : (s.blkopen num /= 0) ≡ false = ground (arith, z) in
    let there : (dev /= 0) ≡ true = ground (arith, ne) in
    let may' : may_write acc (s1.blkinfos num).mode o_rdwr ≡ true =
      ap (λ t. may_write acc t.mode o_rdwr) (update_self s.blkinfos num info) ∙ may in
    let s2 = record s1 {
      blkopen = update s1.blkopen num 0;
      blkdevs = update s1.blkdevs num 0;
      shut = s1.blkdevs num ∷ s1.shut;
    } in
    (
      blkfdoff + num,
      s1,
      s2,
      rw name (rw closed (rw there (opened_lem o_rdwr acc num s1 may'))),
      made,
      open1,
      close_device_lem num 0 s1 l (omega (arith, open1)),
      ap (λ d. d ∷ s.shut) made,
      update_self s1.blkdevs num 0,
      λ q. elim (Bool-cases (num == q)) [
        | inl e ↦
            let same = (==_iff num q).0 e in
            ap (update s1.blkopen num 0) (sym same)
            ∙ update_self s1.blkopen num 0
            ∙ sym z
            ∙ ap s.blkopen same
        | inr e ↦
            let ne' = ne_of_== num q e in
            update_ne s1.blkopen num q 0 ne' ∙ update_ne s.blkopen num q 1 ne'
      ],
    )

-- A device that is open: another rumpuser_open of it, or a rumpuser_getfileinfo, fails with 1, and counts as
-- one more open all the same, so that the close of the descriptor that there is no longer shuts the
-- device down.
pub open_device-again :
    (o_rdwr num : ℕ) (acc : Access) (made : ℕ × Info) (s : Blocks)
    → num < nblkdev
    → s.blkopen num ≡ 1
    → (s1 : Blocks) × (s2 : Blocks) × (open_device o_rdwr (blk_name num) true acc made s
        ≡ (one, none, s1))
      × (getfileinfo (blk_name num) made s ≡ (one, none, s1))
      × (close_device (blkfdoff + num) s1 ≡ (success, s2))
      × (s2.blkopen num ≡ 1)
      × (s2.shut ≡ s.shut)
unfolding open_device getfileinfo devopen opened sized
open_device-again o_rdwr num acc (dev, info) s l z =
    let name = devname2num-blk_name num l in
    let s1 = record s { blkopen = update s.blkopen num ((s.blkopen num + 1) % 2 ^ 32) } in
    let twice : s1.blkopen num ≡ 2 =
      update_self s.blkopen num ((s.blkopen num + 1) % 2 ^ 32) ∙ omega (arith, z) in
    let is_open : (s.blkopen num /= 0) ≡ true = ground (arith, z) in
    (
      s1,
      record s1 { blkopen = update s1.blkopen num 1 },
      rw name (rw is_open refl),
      rw (name, getfileinfo) (rw is_open refl),
      close_device_lem num 1 s1 l (omega (arith, twice)),
      update_self s1.blkopen num 1,
      refl,
    )
