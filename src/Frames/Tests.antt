-- ===== src/Frames/Tests.antt =====
-- The page frame allocator on concrete inputs.
use swallow_os.Prelude.{
  ℕ, ◌+◌, ◌*◌, ◌≡◌, ◌≤◌, ◌<◌, ◌/◌, refl, arith, ltb, leb, ◌&&◌, ◌==◌, if◌then◌else◌, some,
}
use swallow_os.Frames.{
  Frames, PageAlloc, page_size, get_frame_map, set_frame_map, claim, alloc_pages,
  check_continuous_free_page, free_pages, init_frame_map,
}
use swallow_os.Frames.Alloc.{IsValid, Claimed, FirstFit, claim-Claimed, alloc_pages-FirstFit}
use swallow_os.Frames.Free.{free_pages-frames, free_pages-leak}
use swallow_os.Frames.Init.{Laid, init_frame_map-Laid}

-- Ten frames, of which 0 and 2 are taken.
abbrev few : Frames
few = record {
  frame_map = λ w. if w == 0 then 5 else 0;
  npages = 10;
  startframe = 0xffff_ffff_8010_0000;
  mem = λ a. 7;
}

few-IsValid : IsValid few
few-IsValid = omega arith

two_frames : (alloc_pages few 2).1 ≡ record { page = 0xffff_ffff_8010_3000; npages = 2 }
unfolding alloc_pages claim get_frame_map set_frame_map check_continuous_free_page
two_frames = refl

too_many : alloc_pages few 10 ≡ (few, record { page = 0; npages = 0 })
unfolding alloc_pages
too_many = refl

alloc_pages-FirstFit_example : FirstFit few 2 0 (alloc_pages few 2)
alloc_pages-FirstFit_example = alloc_pages-FirstFit few-IsValid (omega arith)

abbrev third : PageAlloc
third = record { page = 0xffff_ffff_8010_3000; npages = 2 }

free_pages-frames_example :
    ((j : ℕ)
      → get_frame_map (free_pages few third).frame_map j
        ≡ (if leb (3 / 8) j && ltb j (3 / 8 + 2) then 0 else get_frame_map few.frame_map j))
    × ((a : ℕ)
        → (free_pages few third).mem a
          ≡ (if leb third.page a && ltb a (third.page + 2 * page_size) then 0 else few.mem a))
free_pages-frames_example = free_pages-frames few-IsValid third 3 (omega arith) (omega arith) refl

one_free : (k : ℕ) → 1 ≤ k → k < 1 + 1 → get_frame_map few.frame_map k ≡ 0
unfolding get_frame_map
one_free k lo hi = let e : k ≡ 1 = omega arith in rw e

one_Claimed : Claimed few 1 1 (claim few 1 1).0 (claim few 1 1).1
one_Claimed = claim-Claimed few-IsValid 1 1 (omega arith) one_free

free_pages-leak_example :
    ((j : ℕ)
      → 1 ≤ j
      → j < 1 + 1
      → get_frame_map (free_pages (claim few 1 1).0 (claim few 1 1).1).frame_map j ≡ 1)
    × ((j : ℕ)
        → 1 / 8 ≤ j
        → j < 1 / 8 + 1
        → get_frame_map (free_pages (claim few 1 1).0 (claim few 1 1).1).frame_map j ≡ 0)
free_pages-leak_example = free_pages-leak few-IsValid one_Claimed (omega arith) (omega arith)

-- A kernel of two megabytes in a machine with sixteen.
init_frame_map-Laid_example :
    (s : Frames) × (init_frame_map 0xffff_ffff_8020_0000 0x100_0000 few ≡ some s)
    × Laid 0xffff_ffff_8020_0000 0x100_0000 s
init_frame_map-Laid_example =
    init_frame_map-Laid 0xffff_ffff_8020_0000 0x100_0000 few (omega arith) (omega arith)
      (omega arith) (omega arith)
