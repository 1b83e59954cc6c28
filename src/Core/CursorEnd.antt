-- ===== src/Core/CursorEnd.antt =====
-- core/xshard_tx_cursor.go: the cursor says that there is no deposit only at its end.
use goquarkchain.Prelude.{
  ◌+◌, ◌%◌, ◌^◌, ◌≡◌, sym, ap, ◌∙◌, Bool, true, false, Option, none, some, List, [], ◌∷◌, drop,
  Result, ok, err, ◌>>=◌, ◌>>◌, fail_if, Option-cases, inl, inr, if◌then◌else◌,
}
use goquarkchain.Core.State.{Deposit}
use goquarkchain.Core.XshardCursor.{
  Blockchain, RootBlock, MinorBlockHeader, XshardTxCursor, CursorError, bad_deposit_index,
  unexpected_list, nil_pointer, get_current_tx, next_root_block, next_minor, scan, get_next_tx,
}

module _ (bc : Blockchain) where
  -- Nothing was given, and the cursor stands at its end.
  abbrev Ends : Result CursorError (Option Deposit × XshardTxCursor) → XshardTxCursor → Type 0
  Ends m x' = m ≡ ok (none, x') → x'.r_block ≡ none

  next_root_block-none : (r : RootBlock) (x x' : XshardTxCursor) → Ends (next_root_block bc r x) x'
  unfolding next_root_block get_current_tx
  next_root_block-none r x x' e =
      elim (Option-cases
        (bc.get_root_block_by_height x.max_root_block_header.hash ((r.number + 1) % 2 ^ 64))) [
          | inl at_end ↦
              let same : ◌≡◌ {A = XshardTxCursor}
                  (record x { r_block = none; m_block_index = 0; xshard_deposit_index = 0 }) x' =
                cc (rw (at_end, next_root_block) at e) in
              ap (λ (c : XshardTxCursor). c.r_block) (sym same)
          | inr (header, found) ↦ elim (Option-cases (bc.get_root_block_by_hash header.hash)) [
            | inl gone ↦ cc (rw (found, gone, next_root_block, get_current_tx) at e)
            | inr (r', known) ↦ cc (rw (found, known, next_root_block, get_current_tx) at e)
          ]
        ]

  after_check :
      (b : Bool) (m : Result CursorError (Option Deposit × XshardTxCursor)) (x' : XshardTxCursor)
      → Ends m x'
      → Ends (fail_if b bad_deposit_index >> m) x'
  after_check true m x' h e = cc
  after_check false m x' h e = h e

  after_current :
      (cur : Result CursorError (Option Deposit)) (x₁ x' : XshardTxCursor)
      (m : Result CursorError (Option Deposit × XshardTxCursor))
      → Ends m x'
      → Ends (cur >>= (λ tx. elim tx [ some t ↦ ok (some t, x₁) | none ↦ m ])) x'
  after_current (err why) x₁ x' m h e = cc
  after_current (ok none) x₁ x' m h e = h e
  after_current (ok (some t)) x₁ x' m h e = cc

  branches :
      (b : Bool) (m n : Result CursorError (Option Deposit × XshardTxCursor)) (x' : XshardTxCursor)
      → Ends m x'
      → Ends n x'
      → Ends (if b then m else n) x'
  branches true m n x' h h' = h
  branches false m n x' h h' = h'

  on_root :
      (o : Option RootBlock) (f : RootBlock → Result CursorError (Option Deposit × XshardTxCursor))
      (x' : XshardTxCursor)
      → ((p : RootBlock) → Ends (f p) x')
      → Ends (elim o [ none ↦ err nil_pointer | some p ↦ f p ]) x'
  on_root none f x' h e = cc
  on_root (some p) f x' h e = h p e

  on_list :
      (o : Option (List Deposit)) (m : Result CursorError (Option Deposit × XshardTxCursor))
      (x' : XshardTxCursor)
      → Ends m x'
      → Ends (elim o [ none ↦ m | some txs ↦ err unexpected_list ]) x'
  on_list none m x' h e = h e
  on_list (some txs) m x' h e = cc

  scan-none :
      (r : RootBlock) (hs : List MinorBlockHeader) (x x' : XshardTxCursor)
      → Ends (scan bc r hs x) x'
  unfolding scan
  scan-none r [] x x' = next_root_block-none r x x'
  scan-none r (h ∷ hs) x x' =
      branches _ _ _ x' (after_check _ _ x' (scan-none r hs (next_minor bc x) x')) (
        on_root (bc.get_root_block_by_hash h.prev_root_block_hash) _ x' (λ prev.
          branches _ _ _ x'
            (on_list (bc.read_cross_shard_tx_list h.hash) _ x'
              (after_check _ _ x' (scan-none r hs (next_minor bc x) x')))
            (after_current _ _ x' _ (after_check _ _ x' (scan-none r hs _ x')))))

  -- When the cursor gives no deposit, and no error, it stands at its end.
  pub get_next_tx-none :
      (x x' : XshardTxCursor) → get_next_tx bc x ≡ ok (none, x') → x'.r_block ≡ none
  unfolding get_next_tx
  get_next_tx-none x x' e = elim (Option-cases x.r_block) [
    | inl at_end ↦
        let same : x ≡ x' = cc (rw (at_end, get_next_tx) at e) in
        ap (λ (c : XshardTxCursor). c.r_block) (sym same) ∙ at_end
    | inr (r, here) ↦
        after_current _ _ x' _ (scan-none r (drop x.m_block_index r.minor_block_headers) _ x')
          (rw (here, get_next_tx) at e)
  ]
