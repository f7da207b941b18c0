-- ===== src/Y86/Seq/Fetching.antt =====
-- The fetch stage of the simulator against the fetch of `step_state`.
use csapp_3e_study.Base.{
  ℕ, ◌+◌, ◌≤◌, ◌<◌, ◌≡◌, refl, arith, Bool, true, false, some, dec_lt, get_or,
}
use csapp_3e_study.Base.Words.{word_mod}
use csapp_3e_study.Y86.Memory.{Mem, found}
use csapp_3e_study.Y86.Memory.Bounds.{get_byte-in, get_byte-out}
use csapp_3e_study.Y86.Machine.{State, Insn, need_regids, need_imm, itype_of}
use csapp_3e_study.Y86.Machine.{Itype}
use csapp_3e_study.Y86.Machine.{iaddq}
use csapp_3e_study.Y86.Machine.Fetch.{Regids, Imm, fetch_regids, fetch_imm, fetch, hi4, lo4}
use csapp_3e_study.Y86.Machine.Invariant.{IsState, fetch_regids_lem, fetch_imm_lem}
use csapp_3e_study.Y86.Seq.{Version, is_full}
use csapp_3e_study.Y86.Seq.Control.{gen_need_regids, gen_need_valc}
use csapp_3e_study.Y86.Seq.Step.{
  Ids, Constant, Fetched, read_ids, read_constant, fetch_rest, fetch_stage,
}

-- Every instruction but `iaddq` is in both versions.
abbrev pub supports : Version → Itype → Bool
supports v iaddq = is_full v
supports v _ = true

-- The variables of the fetch stage as those of `step_state`.
abbrev pub fetched : Insn → Fetched
fetched i = record {
  imem_error = false;
  icode = i.hi0;
  ifun = i.lo0;
  ra = i.hi1;
  rb = i.lo1;
  valc = i.cval;
  valp = i.ftpc;
}

need_regids-same :
    (v : Version) (h : Itype) → supports v h ≡ true → gen_need_regids v h ≡ need_regids h
unfolding need_regids
need_regids-same v iaddq e = e
need_regids-same v _ e = refl

need_imm-same : (v : Version) (h : Itype) → supports v h ≡ true → gen_need_valc v h ≡ need_imm h
unfolding need_imm
need_imm-same v iaddq e = e
need_imm-same v _ e = refl

abbrev ids : Regids → Ids
ids a = record { ra = a.hi1; rb = a.lo1; valp = a.ftpc }

abbrev constant : Imm → Constant
constant c = record { valc = c.cval; valp = c.ftpc }

module _ (v : Version) (m : Mem) (h : Itype) (ok : supports v h ≡ true) (pc : ℕ) where
  read_ids_lem :
      (a : Regids)
      → pc + 1 < word_mod
      → fetch_regids m h pc ≡ found a
      → a.ok1 ≡ true
      → read_ids v m h pc ≡ some (ids a)
  unfolding fetch_regids read_ids
  read_ids_lem a le e o = ground (arith, need_regids-same v h ok)

  read_constant_lem :
      (c : Imm)
      → pc + 8 < word_mod
      → fetch_imm m h pc ≡ found c
      → c.okc ≡ true
      → read_constant v m h pc ≡ some (constant c)
  unfolding fetch_imm read_constant
  read_constant_lem c le e o = ground (arith, need_imm-same v h ok)

module _ {s : State} (w : IsState s) (v : Version) where
  -- The two reads behind the first byte are those of `step_state`, where they succeed.
  fetch_rest_lem :
      (h : Itype) (ifun : ℕ) (a : Regids) (c : Imm)
      → s.pc < s.m.len
      → supports v h ≡ true
      → fetch_regids s.m h (s.pc + 1) ≡ found a
      → a.ftpc ≤ s.pc + 2
      → a.ok1 ≡ true
      → fetch_imm s.m h a.ftpc ≡ found c
      → c.okc ≡ true
      → fetch_rest v s.m s.pc false h ifun
        ≡ some (record {
          imem_error = false;
          icode = h;
          ifun = ifun;
          ra = a.hi1;
          rb = a.lo1;
          valc = c.cval;
          valp = c.ftpc;
        })
  unfolding fetch_rest
  fetch_rest_lem h ifun a c p ok ea la oa ec oc =
      let small = w.mem.small in
      ground (
        arith,
        read_ids_lem v s.m h ok (s.pc + 1) a (omega arith) ea oa,
        read_constant_lem v s.m h ok a.ftpc c (omega arith) ec oc,
      )

  -- Where the bytes of the instruction can be read, and the version has the instruction, the fetch
  -- stage leaves what `step_state` reads.
  pub fetch_stage_lem :
      (i : Insn)
      → fetch s ≡ found i
      → i.ok1 ≡ true
      → i.okc ≡ true
      → supports v i.hi0 ≡ true
      → fetch_stage v s.m s.pc ≡ some (fetched i)
  unfolding fetch fetch_stage
  fetch_stage_lem i e o1 oc ok = elim (dec_lt s.pc s.m.len) [
    | no p ↦ absurd (ground (arith, get_byte-out w.mem s.pc w.pc_word))
    | yes p ↦
        let b = get_or s.m.contents s.pc 0 in
        let h = itype_of (hi4 b) in
        let (a, ea, la) = fetch_regids_lem w.mem h (s.pc + 1) (omega arith) in
        let (c, ec, lc, wc) = fetch_imm_lem w.mem h a.ftpc (omega arith) in
        ground (arith, get_byte-in w.mem s.pc p, ea, ec, fetch_rest_lem h (lo4 b) a c)
  ]
