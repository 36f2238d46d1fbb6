-- ===== src/PageTables/Addresses.antt =====
-- How an address is split into the indices of the four levels.
use swallow_os.Prelude.{ℕ, ◌+◌, ◌*◌, ◌%◌, ◌^◌, ◌≡◌, ◌<◌, arith}
use swallow_os.PageTables.{virtaddr2page}

-- The four indices are below 512, and with the offset in the page they give an address below 2 ^ 48
-- back.
pub virtaddr2page-inverse :
    (address : ℕ)
    → address < 2 ^ 48
    → let (pml4, pdptr, pd, pt) = virtaddr2page address in
      (pml4 < 512)
      × (pdptr < 512)
      × (pd < 512)
      × (pt < 512)
      × ((((pml4 * 512 + pdptr) * 512 + pd) * 512 + pt) * 4096 + address % 4096 ≡ address)
unfolding virtaddr2page
virtaddr2page-inverse address small =
    (omega arith, omega arith, omega arith, omega arith, omega arith)
