-- ===== src/Mem.antt =====
-- mem.hpp: page-aligned memory maps, and the two allocators of atomic_stack.hpp that a stack is
-- built with. Sizes are `std::size_t`; an address is the integer that the system call returns, and
-- a null pointer is `none`.
pub mod Pages
pub mod Maps
pub mod Tests
use epoll_server.Base.{ℕ, ◌+◌, ◌-◌, ◌*◌, ◌%◌, ◌^◌, Option, none, some, ◌==◌, if◌then◌else◌}
use epoll_server.Base.Int.{ℤ, failed, is_zero}
use epoll_server.Os.{Os, Call, M, pure, ◌>>=◌, when◌then◌else◌, sys}

-- Arithmetic on `std::size_t`.
abbrev pub size_t : ℕ → ℕ
size_t n = n % 2 ^ 64

-- `if (n % p) n = n + p - (n % p)`
unfoldable pub round_up : ℕ → ℕ → ℕ
round_up p n = if n % p == 0 then n else size_t (size_t (n + p) + 2 ^ 64 - n % p)

module _ {S : Type 0} where
  -- `detail::genmap`, with the new value of `*sizeHint`.
  unfoldable pub genmap : Os → (unitsize : ℕ) → (hint : ℕ) → M S (Option ℤ × ℕ)
  unfolding round_up
  genmap os unitsize hint =
      let count = round_up os.pagesize hint in
      let size = size_t (count * unitsize) in
      do
        file ← sys os Call.memfd_create
        when failed file.ret then pure (none, count) else do
          cut ← sys os (Call.ftruncate file.ret size)
          when failed cut.ret then (do _ ← sys os (Call.close file.ret); pure (none, count)) else do
            page ← sys os (Call.mmap_reserve size)
            _ ← sys os (Call.mmap_fixed page.ret size file.ret)
            _ ← sys os (Call.close file.ret)
            pure (some page.ret, count)

  -- `detail::delmap`
  unfoldable pub unmap : Os → (addr : ℤ) → (unitsize count : ℕ) → M S (Unit {0})
  unmap os addr unitsize count = do
    _ ← sys os (Call.munmap addr (size_t (count * unitsize)))
    pure tt

  -- `delmap<T>`, with `unitsize` for `sizeof(T)`
  unfoldable pub delmap : Os → (unitsize : ℕ) → (addr : ℤ) → (size : ℕ) → M S (Unit {0})
  unfolding unmap
  delmap os unitsize addr size = unmap os addr unitsize (size_t (size * 2))

  -- `std_alloc<T>::create` and `destroy`
  unfoldable pub std_create : Os → (unitsize : ℕ) → (hint : ℕ) → M S (Option ℤ × ℕ)
  unfolding round_up
  std_create os unitsize hint =
      let count = round_up os.pagesize hint in
      do
        block ← sys os (Call.malloc (size_t (unitsize * count)))
        pure (if is_zero block.ret then none else some block.ret, count)

  unfoldable pub std_destroy : Os → (addr : ℤ) → M S (Unit {0})
  std_destroy os addr = do _ ← sys os (Call.free addr); pure tt

-- The template parameter `Tmem` of a stack: `create` returns the block, `none` for a null pointer,
-- and the new capacity.
pub record Allocator (S : Type 0) : Type 0 where
  pub create : (hint : ℕ) → M S (Option ℤ × ℕ)
  pub destroy : (addr : ℤ) → (size : ℕ) → M S (Unit {0})

-- `map_alloc<T>`
abbrev pub map_alloc : {S : Type 0} → Os → (unitsize : ℕ) → Allocator S
map_alloc os unitsize = record { create = genmap os unitsize; destroy = delmap os unitsize }

-- `std_alloc<T>`
abbrev pub std_alloc : {S : Type 0} → Os → (unitsize : ℕ) → Allocator S
std_alloc os unitsize = record {
  create = std_create os unitsize;
  destroy = λ addr _. std_destroy os addr;
}
