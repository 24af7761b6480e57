-- ===== src/Fs/Write/Layout.antt =====
-- A file whose blocks are there, and room in the log.
use hyu_ele3021_operating_sy.Prelude.{
  if_false, ℕ, ◌+◌, ◌-◌, ◌*◌, ◌≤◌, ◌<◌, ◌≡◌, refl, sym, subst, ◌∙◌, ◌≢◌, ◌⊎◌, false, ◌||◌, some,
  List, [], ◌∷◌, arith, ltb, leb, length, get_or,
}
use hyu_ele3021_operating_sy.Fs.Buffer.{Block, bread, fill}
use hyu_ele3021_operating_sy.Fs.Log.{log_size}
use hyu_ele3021_operating_sy.Fs.Journal.{absorb, log_write}
use hyu_ele3021_operating_sy.Fs.Journal.Flush.{length-absorb}
use hyu_ele3021_operating_sy.Fs.Blocks.{Superblock, Kern, update}
use hyu_ele3021_operating_sy.Fs.Inode.{Meta}
use hyu_ele3021_operating_sy.Fs.Bmap.{route}
use hyu_ele3021_operating_sy.Fs.Bmap.Tree.{Chain, end, link, bmap_found}
use hyu_ele3021_operating_sy.Fs.Content.{bsize}
use hyu_ele3021_operating_sy.Fs.Content.Read.{file_byte, AllPlaced}

-- Following `js` from block `b` on leads to block `c`, through blocks of which `P` holds.
pub data Way (k : Kern) (P : ℕ → Type 0) : ℕ → List ℕ → ℕ → Type 0 where
  here : {b : ℕ} → Way k P b [] b
  through :
      {b j c : ℕ} {js : List ℕ}
      → P b
      → get_or (bread b k.store) j 0 ≢ 0
      → Way k P (get_or (bread b k.store) j 0) js c
      → Way k P b (j ∷ js) c

way-Chain : {k : Kern} {P : ℕ → Type 0} {b c : ℕ} {js : List ℕ} → Way k P b js c → Chain k b js c
way-Chain here = end
way-Chain (through p h w) = link h (way-Chain w)

-- A change of other blocks keeps the way.
way_kept :
    {k k' : Kern} {P : ℕ → Type 0} {b c : ℕ} {js : List ℕ}
    → ((d : ℕ) → P d → bread d k'.store ≡ bread d k.store)
    → Way k P b js c
    → Way k' P b js c
way_kept same here = here
way_kept {k} {k'} {P} same (through {b} {j} {c} {js} p h w) =
    let e : bread b k.store ≡ bread b k'.store = sym (same b p) in
    through p (subst (λ x. get_or x j 0 ≢ 0) e h)
      (subst (λ x. Way k' P (get_or x j 0) js c) e (way_kept same w))

-- The log of `k'` has at most `n` blocks more than that of `k`.
pub record Grows (n : ℕ) (k k' : Kern) : Type 0 where
  pub more : length k'.log.lh ≤ length k.log.lh + n
  pub calls : k'.log.outstanding ≡ k.log.outstanding
  pub room : k'.log.size ≡ k.log.size

-- The log has room for `n` blocks, and a call is running.
pub record HasRoom (n : ℕ) (k : Kern) : Type 0 where
  pub running : 0 < k.log.outstanding
  pub in_header : length k.log.lh + n ≤ log_size
  pub on_disk : length k.log.lh + n ≤ k.log.size - 1

log_write_room :
    (b : ℕ) (k : Kern)
    → HasRoom 1 k
    → log_write b k.log ≡ some (record (k.log) { lh = absorb b k.log.lh })
unfolding log_write
log_write_room b k h =
    if_false _ _ (fits (length k.log.lh) k.log.size h.in_header h.on_disk)
    ∙ if_false _ _ (some_call k.log.outstanding h.running)
  where
    fits :
        (n size : ℕ)
        → n + 1 ≤ log_size
        → n + 1 ≤ size - 1
        → (leb log_size n || leb size (n + 1)) ≡ false
    fits n size h k = ground arith

    some_call : (n : ℕ) → 0 < n → ltb n 1 ≡ false
    some_call n h = ground arith

pub update-Grows :
    (b : ℕ) (x : Block) (k : Kern)
    → HasRoom 1 k
    → (k' : Kern) × (update b x k ≡ some k') × Grows 1 k k'
unfolding update
update-Grows b x k h = (
  record { store = fill b x k.store; log = record (k.log) { lh = absorb b k.log.lh } },
  rw (log_write_room b k h, update) refl,
  record { more = length-absorb b k.log.lh; calls = refl; room = refl },
)

module _ (sb : Superblock) (m : Meta) (place : ℕ → ℕ) (e home : ℕ) where
  -- A block that is none of the file's data.
  abbrev pub IsOther : ℕ → Type 0
  IsOther c = (bn : ℕ) → bn * bsize < e → c ≢ place bn

  -- A block that can hold addresses of the file. `home` is the block of its inode.
  abbrev pub IsIndex : ℕ → Type 0
  IsIndex c = IsOther c × (c ≢ home)

  -- The blocks of the file up to byte `e` are there, and they are different blocks.
  pub record Laid (k : Kern) : Type 0 where
    pub way :
        (bn : ℕ)
        → bn * bsize < e
        → (i : ℕ) × (js : List ℕ) × (route bn ≡ some (i, js))
          × (get_or m.addrs i 0 ≢ 0)
          × Way k IsIndex (get_or m.addrs i 0) js (place bn)
    pub distinct : (bn bn' : ℕ) → bn * bsize < e → bn' * bsize < e → place bn ≡ place bn' → bn ≡ bn'
    pub whole : (bn : ℕ) → bn * bsize < e → length (bread (place bn) k.store) ≡ 128
    pub apart : IsOther home

  pub Laid-AllPlaced : (k : Kern) → Laid k → AllPlaced sb m k place e
  Laid-AllPlaced k l = record {
    placed = λ bn h.
        let (i, js, r, n, w) = l.way bn h in bmap_found sb bn i (place bn) js m k r n (way-Chain w);
    whole = l.whole;
  }

  -- A change of the file's data keeps its blocks where they are.
  pub Laid-kept :
      (k k' : Kern)
      → ((c : ℕ) → IsIndex c → bread c k'.store ≡ bread c k.store)
      → ((bn : ℕ) → bn * bsize < e → length (bread (place bn) k'.store) ≡ 128)
      → Laid k
      → Laid k'
  Laid-kept k k' same whole l = record {
    way = λ bn h. let (i, js, r, n, w) = l.way bn h in (i, js, r, n, way_kept same w);
    distinct = l.distinct;
    whole = whole;
    apart = l.apart;
  }

  -- The `n` bytes from `off` on are now the first of `cs`; `j` blocks went to the log.
  pub record Wrote (j off n : ℕ) (cs : List ℕ) (k k' : Kern) : Type 0 where
    pub laid : Laid k'
    pub inside : (i : ℕ) → i < n → file_byte sb m k' place (off + i) ≡ get_or cs i 0
    pub outside :
        (p : ℕ)
        → p < e
        → (p < off) ⊎ (off + n ≤ p)
        → file_byte sb m k' place p ≡ file_byte sb m k place p
    pub others : (c : ℕ) → IsOther c → bread c k'.store ≡ bread c k.store
    pub log : Grows j k k'
