-- ===== src/Msg/Split/Loop.antt =====
-- The loop of `splitDetailsAtLines`: its invariant, and what the whole function makes of a text.
use kubechecks.Common.{
  ℕ, suc, ◌+◌, ◌≤◌, Bytes, Bool, true, false, List, [], ◌∷◌, ◌++◌, length, concat, leb, ◌≡◌, refl,
  sym, ap, ◌∙◌, ◌⊎◌, inl, inr, arith, length-append, append_assoc, append-nil, Bool-cases,
  concat-append, leb→le, leb→lt, subst,
}
use kubechecks.Msg.Markdown.{
  MdState, no_state, next, closer_len, closer, opener, line_truncated, closer_len-length,
}
use kubechecks.Msg.Split.{Splitter, flush, write_line, shrink}
use kubechecks.Msg.Split.Shrink.{Shortened, Ends, shrink_lem, shrink_fits}
use kubechecks.Msg.Split.Pieces.{
  after_lines, after_lines-append, piece, pieces, pieces-snoc, Kept, Written, Written-snoc, AllFit,
  AllFit-snoc,
}

-- The state where the part after some finished parts begins.
abbrev pub start_of : List (List Bytes) → MdState
start_of done = after_lines no_state (concat done)

module _ (max_len : ℕ) where
  -- The parts that are finished, and the lines of the part in the buffer.
  pub record Chain (sp : Splitter) (lines : List Bytes) : Type 0 where
    pub done : List (List Bytes)
    pub cur : List Bytes
    pub parts_eq : sp.parts ≡ pieces no_state done
    pub buf_eq : sp.buf ≡ opener (start_of done) ++ concat cur
    pub state_eq : sp.state ≡ after_lines (start_of done) cur
    pub written : Written max_len no_state lines (concat done ++ cur)
    pub all_fit : AllFit max_len no_state done

  pub record Inv (sp : Splitter) (lines : List Bytes) : Type 0 where
    pub chain : Chain sp lines
    pub room : (length sp.buf + closer_len sp.state ≤ max_len) ⊎ (chain.cur ≡ line_truncated ∷ [])
    pub fresh : sp.has_content ≡ false → (chain.done ≡ []) × (chain.cur ≡ [])

  -- In front of a line: it fits in the part, or the part holds nothing but what was reopened.
  pub record Ready (sp : Splitter) (line : Bytes) (lines : List Bytes) : Type 0 where
    pub chain : Chain sp lines
    pub space :
        (length line + length sp.buf + closer_len (next sp.state line) ≤ max_len)
        ⊎ ((sp.buf ≡ opener sp.state) × (chain.cur ≡ []))

buf-piece :
    (sp : Splitter) (start : MdState) (cur : List Bytes)
    → sp.buf ≡ opener start ++ concat cur
    → sp.state ≡ after_lines start cur
    → sp.buf ++ closer sp.state ≡ piece start cur
unfolding piece
buf-piece sp start cur b s =
    rw (b, s) (append_assoc (opener start) (concat cur) (closer (after_lines start cur)))

length-piece :
    (sp : Splitter) (start : MdState) (cur : List Bytes)
    → sp.buf ≡ opener start ++ concat cur
    → sp.state ≡ after_lines start cur
    → length (piece start cur) ≡ length sp.buf + closer_len sp.state
length-piece sp start cur b s = omega (
  arith,
  ap length (buf-piece sp start cur b s),
  length-append sp.buf (closer sp.state),
  closer_len-length sp.state,
)

pub concat-snoc :
    (done : List (List Bytes)) (cur : List Bytes) → concat (done ++ cur ∷ []) ≡ concat done ++ cur
concat-snoc done cur = concat-append done (cur ∷ []) ∙ ap (λ t. concat done ++ t) (append-nil cur)

-- The state in the buffer is where a new part begins.
start_of-snoc :
    (done : List (List Bytes)) (cur : List Bytes)
    → start_of (done ++ cur ∷ []) ≡ after_lines (start_of done) cur
start_of-snoc done cur =
    ap (after_lines no_state) (concat-snoc done cur) ∙ after_lines-append no_state (concat done) cur

module _ (max_len : ℕ) where
  pub finished_parts :
      (sp : Splitter) (lines : List Bytes) (c : Chain max_len sp lines)
      → sp.parts ++ (sp.buf ++ closer sp.state) ∷ [] ≡ pieces no_state (c.done ++ c.cur ∷ [])
  finished_parts sp lines c =
      rw (c.parts_eq, buf-piece sp (start_of c.done) c.cur c.buf_eq c.state_eq)
        (sym (pieces-snoc no_state c.done c.cur))

  pub finished_fit :
      (sp : Splitter) (lines : List Bytes) (v : Inv max_len sp lines)
      → AllFit max_len no_state (v.chain.done ++ v.chain.cur ∷ [])
  finished_fit sp lines v =
      AllFit-snoc max_len no_state v.chain.done v.chain.cur v.chain.all_fit (elim v.room [
        | inl h ↦ inl (
            omega (
              arith,
              length-piece sp (start_of v.chain.done) v.chain.cur v.chain.buf_eq v.chain.state_eq,
            ))
        | inr h ↦ inr h
      ])

  pub flushed : Splitter → Splitter
  flushed sp = record sp {
    parts = sp.parts ++ (sp.buf ++ closer sp.state) ∷ [];
    buf = opener sp.state;
  }

  flushed-Chain :
      (sp : Splitter) (lines : List Bytes) (v : Inv max_len sp lines)
      → Chain max_len (flushed sp) lines
  unfolding flushed after_lines
  flushed-Chain sp lines v = record {
    done = c.done ++ c.cur ∷ [];
    cur = [];
    parts_eq = finished_parts sp lines c;
    buf_eq = ap opener (c.state_eq ∙ sym (start_of-snoc c.done c.cur)) ∙ sym (append-nil _);
    state_eq = c.state_eq ∙ sym (start_of-snoc c.done c.cur);
    written =
        subst (Written max_len no_state lines) (sym (append-nil _ ∙ concat-snoc c.done c.cur))
          c.written;
    all_fit = finished_fit sp lines v;
  }
    where
      open v use {chain as c}

  pub flush-cases :
      (sp : Splitter) (line : Bytes) (after : MdState)
      → (flush max_len sp line after ≡ flushed sp)
        ⊎ ((flush max_len sp line after ≡ sp)
            × ((sp.has_content ≡ false)
                ⊎ (length line + length sp.buf + closer_len after ≤ max_len)))
  unfolding flush flushed
  flush-cases sp line after = ground arith

  pub flush-Ready :
      (sp : Splitter) (line : Bytes) (lines : List Bytes)
      → Inv max_len sp lines
      → Ready max_len (flush max_len sp line (next sp.state line)) line lines
  unfolding flushed-Chain
  flush-Ready sp line lines v = elim (flush-cases sp line (next sp.state line)) [
    | inl e ↦ rw e (record { chain = flushed-Chain sp lines v; space = inr (refl, refl) })
    | inr (e, inr fits) ↦ rw e (record { chain = v.chain; space = inl fits })
    | inr (e, inl new) ↦
        rw e (record { chain = v.chain; space = inr (reopened new, (v.fresh new).1) })
  ]
    where
      open v use {chain as c}

      -- In front of the first line nothing is open.
      empty :
          (done : List (List Bytes)) (cur : List Bytes)
          → done ≡ []
          → cur ≡ []
          → opener (start_of done) ++ concat cur ≡ opener (after_lines (start_of done) cur)
      empty done cur d e = rw (d, e) (append-nil _)

      reopened : sp.has_content ≡ false → sp.buf ≡ opener sp.state
      reopened new =
          c.buf_eq ∙ empty c.done c.cur (v.fresh new).0 (v.fresh new).1 ∙ ap opener (sym c.state_eq)

  written_to : Splitter → Bytes → Splitter
  written_to sp line = record sp {
    buf = sp.buf ++ line;
    state = next sp.state line;
    has_content = true;
  }

  write-Chain :
      (sp : Splitter) (line line' : Bytes) (lines : List Bytes) (c : Chain max_len sp lines)
      → Kept max_len sp.state line line'
      → Chain max_len (written_to sp line') (lines ++ line ∷ [])
  unfolding written_to after_lines
  write-Chain sp line line' lines c k = record {
    done = c.done;
    cur = c.cur ++ line' ∷ [];
    parts_eq = c.parts_eq;
    buf_eq =
        ap (λ t. t ++ line') c.buf_eq
        ∙ append_assoc (opener (start_of c.done)) (concat c.cur) line'
        ∙ ap (λ t. opener (start_of c.done) ++ t) (snoc_line c.cur);
    state_eq =
        ap (λ s. next s line') c.state_eq
        ∙ sym (after_lines-append (start_of c.done) c.cur (line' ∷ []));
    written =
        subst (Written max_len no_state (lines ++ line ∷ []))
          (append_assoc (concat c.done) c.cur (line' ∷ []))
          (Written-snoc max_len no_state lines (concat c.done ++ c.cur) line line' c.written (
            subst (λ s. Kept max_len s line line')
              (c.state_eq ∙ sym (after_lines-append no_state (concat c.done) c.cur)) k));
    all_fit = c.all_fit;
  }
    where
      snoc_line : (cur : List Bytes) → concat cur ++ line' ≡ concat (cur ++ line' ∷ [])
      snoc_line cur =
          sym (concat-append cur (line' ∷ []) ∙ ap (λ t. concat cur ++ t) (append-nil line'))

  -- A line that fits is written whole, and the marker stands alone in a new part.
  pub write-Inv :
      (sp : Splitter) (line : Bytes) (lines : List Bytes)
      → Ready max_len sp line lines
      → Inv max_len (write_line max_len sp line (next sp.state line)) (lines ++ line ∷ [])
  unfolding write_line written_to write-Chain
  write-Inv sp line lines r =
      rw state_eq (record {
        chain = write-Chain sp line out lines r.chain kept;
        room = room;
        fresh = λ h. cc;
      })
    where
      result : Bytes × MdState
      result = shrink (suc (length line)) max_len (length sp.buf) sp.state line (next sp.state line)

      out : Bytes
      out = result.0

      loop :
          Ends max_len (length sp.buf) sp.state result
          × Shortened line out
          × (result.1 ≡ next sp.state out)
      loop =
          shrink_lem max_len (length sp.buf) (suc (length line)) sp.state line line
            (next sp.state line) (omega arith) refl (inl refl)

      state_eq : result.1 ≡ next sp.state out
      state_eq = loop.2

      fits : Bool
      fits = leb (length line + length sp.buf + closer_len (next sp.state line)) max_len

      whole : fits ≡ true → out ≡ line
      whole h =
          ap (λ t. t.0)
            (shrink_fits max_len (length sp.buf) (length line) sp.state line (next sp.state line)
              (leb→le _ _ h))

      alone : fits ≡ false → (sp.buf ≡ opener sp.state) × (r.chain.cur ≡ [])
      alone h = elim r.space [ inl f ↦ absurd (omega (arith, leb→lt _ _ h)) | inr a ↦ a ]

      kept : Kept max_len sp.state line out
      kept = elim (Bool-cases fits) [
        | inl h ↦ inl (whole h)
        | inr h ↦ inr (omega (arith, leb→lt _ _ h, ap length (alone h).0), loop.1)
      ]

      room :
          (length (sp.buf ++ out) + closer_len (next sp.state out) ≤ max_len)
          ⊎ (r.chain.cur ++ out ∷ [] ≡ line_truncated ∷ [])
      room = elim (Bool-cases fits) [
        | inl h ↦ rw (whole h) (inl (omega (arith, leb→le _ _ h, length-append sp.buf line)))
        | inr h ↦ elim loop.0 [
          | inl f ↦ inl (omega (arith, f, length-append sp.buf out, ap closer_len state_eq))
          | inr (m, same) ↦ inr (rw ((alone h).1, m) refl)
        ]
      ]
