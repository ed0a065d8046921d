-- ===== src/Page/Fault.antt =====
-- core/page.cpp: the page fault handler keeps the reference counts and isolates the faulting page.
use jkos.Base.{
  update, ℕ, ◌≡◌, ◌≢◌, ◌⊎◌, ◌<◌, refl, Bool, true, Option, none, some, List, [], ◌∷◌, ◌==◌, arith,
  Bool-cases, Option-cases, inl, inr, ◌>>=◌,
}
use jkos.Page.{
  Entry, Memory, FaultRegisters, decrement, alloc, copy_page_physical, copy_on_write, lazy_fault,
  page_fault,
}
use jkos.Page.Refs.{refs, RefInv, refs-le-length}
use jkos.Page.Frames.{
  AllocResult, no_frame, kept, fresh, alloc-AllocResult, alloc-RefInv, drop-RefInv, same-RefInv,
  top_free,
}

module _ (pool : ℕ → Bool) (es : List Entry) where
  lazy_fault-RefInv :
      (e : Entry) (m : Memory) {e' : Entry} {m' : Memory}
      → RefInv pool m (e ∷ es)
      → lazy_fault e m ≡ some (e', m')
      → RefInv pool m' (e' ∷ es)
  unfolding lazy_fault
  lazy_fault-RefInv e m {e'} {m'} v h = go (Option-cases (alloc e.user e.rw e m))
    where
      go :
          (alloc e.user e.rw e m ≡ none) ⊎ ((p : Entry × Memory) × (alloc e.user e.rw e m ≡ some p))
          → RefInv pool m' (e' ∷ es)
      go (inl q) = ground (arith, q)
      go (inr (p, q)) =
          same-RefInv pool es p.1 m' p.0 e' (ground (arith, q)) (ground (arith, q))
            (ground (arith, q)) (alloc-RefInv pool es e.user e.rw e m v q)

  -- The memory and the entry, when the shared frame is given up.
  abbrev pub released : Memory → Entry → Memory
  released m e = record m { ref_cnt = update m.ref_cnt e.addr (decrement (m.ref_cnt e.addr)) }

  released-RefInv :
      (e : Entry) (m : Memory)
      → RefInv pool m (e ∷ es)
      → e.addr ≢ 0
      → m.ref_cnt e.addr ≢ 1
      → RefInv pool (released m e) (record e { addr = 0 } ∷ es)
  released-RefInv e m v n k =
      drop-RefInv pool es m (released m e) e (record e { addr = 0 }) n refl
        (ground (arith, v.counted e.addr, refs-le-length e.addr es, v.few)) refl v

  -- What copy-on-write leaves behind.
  pub data Copied (e : Entry) (m : Memory) (call : Option (Entry × Memory)) : Type 0 where
    refused : call ≡ none → (e.addr ≡ 0) ⊎ (m.frames ≡ []) → Copied e m call
    sole : call ≡ some (record e { rw = true }, m) → refs e.addr es ≡ 0 → Copied e m call
    copied :
        (e' : Entry) (m' : Memory)
        → call ≡ some (e', m')
        → RefInv pool m' (e' ∷ es)
        → e'.rw ≡ true
        → refs e'.addr es ≡ 0
        → ((i : ℕ) → i < 1024 → m'.words e'.addr i ≡ m.words e.addr i)
        → ((b : ℕ) → b ≢ e'.addr → m'.words b ≡ m.words b)
        → Copied e m call

  copy-Copied :
      (e : Entry) (m : Memory) (a : ℕ) (rest : List ℕ)
      → RefInv pool m (e ∷ es)
      → RefInv pool (released m e) (record e { addr = 0 } ∷ es)
      → alloc true true (record e { addr = 0 }) (released m e)
        ≡ some (
          record e { rw = true; user = true; addr = a; allocable = true; present = true },
          record (released m e) { frames = rest; ref_cnt = update (released m e).ref_cnt a 1 },
        )
      → m.frames ≡ a ∷ rest
      → Copied e m (
          alloc true true (record e { addr = 0 }) (released m e) >>= λ (e', m').
          some (e', copy_page_physical e'.addr e.addr m'))
  unfolding copy_page_physical
  copy-Copied e m a rest v w q f = rw q (
      copied (record e { rw = true; user = true; addr = a; allocable = true; present = true })
        (copy_page_physical a e.addr
          (record (released m e) { frames = rest; ref_cnt = update (released m e).ref_cnt a 1 }))
        refl
        (same-RefInv pool es
          (record (released m e) { frames = rest; ref_cnt = update (released m e).ref_cnt a 1 }) _
          (record e { rw = true; user = true; addr = a; allocable = true; present = true }) _ refl
          refl refl (alloc-RefInv pool es true true (record e { addr = 0 }) (released m e) w q))
        refl (ground (arith, top_free pool es (released m e) (record e { addr = 0 }) a rest f w))
        (λ i h. ground arith) (λ b n. ground arith))

  -- The part of `page_fault` for a write to a shared page: it fails only for an entry with no frame
  -- or with no frame left. Else the entry is writable, its frame is its own and has the old words,
  -- and the words of every other frame are as they were.
  pub copy_on_write-Copied :
      (e : Entry) (m : Memory) → RefInv pool m (e ∷ es) → Copied e m (copy_on_write e m)
  unfolding copy_on_write
  copy_on_write-Copied e m v = elim (Bool-cases (e.addr == 0)) [
    | inl z ↦ rw z (refused refl (inl (ground arith)))
    | inr z ↦ elim (Bool-cases (m.ref_cnt e.addr == 0)) [
      | inl y ↦ absurd (ground (arith, v.counted e.addr))
      | inr y ↦ elim (Bool-cases (m.ref_cnt e.addr == 1)) [
        | inl x ↦ rw (z, y, x) (sole refl (ground (arith, v.counted e.addr)))
        | inr x ↦ rw (z, y, x) (go (released-RefInv e m v (ground arith) (ground arith)))
      ]
    ]
  ]
    where
      result :
          (w : RefInv pool (released m e) (record e { addr = 0 } ∷ es))
          → AllocResult pool es true true
              (record e { addr = 0 })
              (released m e)
              (alloc true true (record e { addr = 0 }) (released m e))
          → Copied e m (
              alloc true true (record e { addr = 0 }) (released m e) >>= λ (e', m').
              some (e', copy_page_physical e'.addr e.addr m'))
      result w (no_frame z q c) = rw c (refused refl (inr q))
      result w (kept n c) = absurd (n refl)
      result w (fresh a rest z q c) = copy-Copied e m a rest v w c q

      go :
          RefInv pool (released m e) (record e { addr = 0 } ∷ es)
          → Copied e m (
              alloc true true (record e { addr = 0 }) (released m e) >>= λ (e', m').
              some (e', copy_page_physical e'.addr e.addr m'))
      go w = result w (alloc-AllocResult pool es true true (record e { addr = 0 }) (released m e) w)

  Copied-RefInv :
      (e : Entry) (m : Memory) {call : Option (Entry × Memory)} (e' : Entry) (m' : Memory)
      → RefInv pool m (e ∷ es)
      → Copied e m call
      → call ≡ some (e', m')
      → RefInv pool m' (e' ∷ es)
  Copied-RefInv e m e' m' v (refused c r) h = cc
  Copied-RefInv e m e' m' v (sole c r) h =
      same-RefInv pool es m m' e e' (ground (arith, c)) (ground (arith, c)) (ground (arith, c)) v
  Copied-RefInv e m e' m' v (copied e'' m'' c w r o i b) h =
      same-RefInv pool es m'' m' e'' e' (ground (arith, c)) (ground (arith, c)) (ground (arith, c))
        w

  -- When `page_fault` returns, the reference counts are right again, whatever the fault was.
  pub page_fault-RefInv :
      (code_end : ℕ) (reg : FaultRegisters) (e : Entry) (m : Memory) {e' : Entry} {m' : Memory}
      → RefInv pool m (e ∷ es)
      → page_fault code_end reg (some e) m ≡ some (e', m')
      → RefInv pool m' (e' ∷ es)
  unfolding page_fault
  page_fault-RefInv code_end reg e m {e'} {m'} v h =
      ground (arith, lazy_fault-RefInv e m {e' = e'} {m' = m'} v, cow)
    where
      cow : copy_on_write e m ≡ some (e', m') → RefInv pool m' (e' ∷ es)
      cow = Copied-RefInv e m e' m' v (copy_on_write-Copied e m v)
