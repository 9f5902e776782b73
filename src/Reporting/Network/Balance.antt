-- ===== src/Reporting/Network/Balance.antt =====
-- The counts of the comment network against its comments and edges.
use hate_speech_rag_service.Common.{
  ℕ, ◌+◌, String, Bool, Option, none, some, List, [], ◌∷◌, nat_Eq, string_Eq, if◌then◌else◌, count,
  length, is_some, ◌≡◌, refl, arith, length-append,
}
use hate_speech_rag_service.Db.Content.{CommentSnapshot}
use hate_speech_rag_service.Reporting.Network.{
  NodeStats, no_stats, StatsTable, update_stats, Tally, Row, is_hateful, parent_of, count_comment,
  count_out, count_in, node_key, add_edge, add_row, add_rows, tally,
}

abbrev pub sum : (NodeStats → ℕ) → StatsTable → ℕ
sum m [] = 0
sum m ((_, s) ∷ rest) = m s + sum m rest

sum-update_stats :
    (m : NodeStats → ℕ) (key : String) (f : NodeStats → NodeStats) (k : ℕ) (table : StatsTable)
    → ((s : NodeStats) → m (f s) ≡ m s + k)
    → m no_stats ≡ 0
    → sum m (update_stats key f table) ≡ sum m table + k
unfolding update_stats
sum-update_stats m key f k [] h z = omega (arith, h no_stats, z)
sum-update_stats m key f k ((name, s) ∷ rest) h z =
    ground (arith, h s, sum-update_stats m key f k rest h z)

-- The totals of a tally.
abbrev pub total_comments : Tally → ℕ
total_comments t = sum (λ s. s.comment_count) t.node_stats

abbrev pub total_hate : Tally → ℕ
total_hate t = sum (λ s. s.hate_count) t.node_stats

abbrev pub total_in : Tally → ℕ
total_in t = sum (λ s. s.in_degree) t.node_stats

abbrev pub total_out : Tally → ℕ
total_out t = sum (λ s. s.out_degree) t.node_stats

abbrev pub one_if : Bool → ℕ
one_if b = if b then 1 else 0

-- What `after` has more than `before`.
pub record Grows (comments hate edges : ℕ) (before after : Tally) : Type 0 where
  pub more_comments : total_comments after ≡ total_comments before + comments
  pub more_hate : total_hate after ≡ total_hate before + hate
  pub more_in : total_in after ≡ total_in before + edges
  pub more_out : total_out after ≡ total_out before + edges
  pub more_edges : length after.edge_values ≡ length before.edge_values + edges

Grows-both :
    (comments hate edges : ℕ) (x y z : Tally)
    → Grows comments hate 0 x y
    → Grows 0 0 edges y z
    → Grows comments hate edges x z
Grows-both comments hate edges x y z h k = record {
  more_comments = omega (arith, h.more_comments, k.more_comments);
  more_hate = omega (arith, h.more_hate, k.more_hate);
  more_in = omega (arith, h.more_in, k.more_in);
  more_out = omega (arith, h.more_out, k.more_out);
  more_edges = omega (arith, h.more_edges, k.more_edges);
}

module _ (show_id : ℕ → String) where
  count_comment-Grows :
      (key : String) (comment : CommentSnapshot) (hateful : Bool) (t : Tally)
      → Grows 1
          (one_if hateful)
          0
          t
          (record t { node_stats = update_stats key (count_comment comment hateful) t.node_stats })
  count_comment-Grows key comment hateful t =
      let f = count_comment comment hateful in
      record {
        more_comments =
            sum-update_stats (λ s. s.comment_count) key f 1 t.node_stats (λ s. refl) refl;
        more_hate =
            sum-update_stats (λ s. s.hate_count) key f (one_if hateful) t.node_stats (λ s. refl)
              refl;
        more_in = sum-update_stats (λ s. s.in_degree) key f 0 t.node_stats (λ s. omega arith) refl;
        more_out =
            sum-update_stats (λ s. s.out_degree) key f 0 t.node_stats (λ s. omega arith) refl;
        more_edges = omega arith;
      }

  -- A key whose counter `m` is left alone twice.
  kept_twice :
      (m : NodeStats → ℕ) (a b : String) (f g : NodeStats → NodeStats) (j k : ℕ)
      (table : StatsTable)
      → ((s : NodeStats) → m (f s) ≡ m s + j)
      → ((s : NodeStats) → m (g s) ≡ m s + k)
      → m no_stats ≡ 0
      → sum m (update_stats a f (update_stats b g table)) ≡ sum m table + (j + k)
  kept_twice m a b f g j k table h l z = omega (
    arith,
    sum-update_stats m a f j (update_stats b g table) h z,
    sum-update_stats m b g k table l z,
  )

  add_edge-Grows :
      (parent : Option CommentSnapshot) (comment : CommentSnapshot) (hateful : Bool) (t : Tally)
      → Grows 0 0 (one_if (is_some parent)) t (add_edge show_id parent comment hateful t)
  add_edge-Grows none comment hateful t = record {
    more_comments = omega arith;
    more_hate = omega arith;
    more_in = omega arith;
    more_out = omega arith;
    more_edges = omega arith;
  }
  add_edge-Grows (some parent) comment hateful t =
      let a = node_key show_id parent in
      let b = node_key show_id comment in
      record {
        more_comments =
            kept_twice (λ s. s.comment_count) a b count_in count_out 0 0 t.node_stats
              (λ s. omega arith) (λ s. omega arith) refl;
        more_hate =
            kept_twice (λ s. s.hate_count) a b count_in count_out 0 0 t.node_stats
              (λ s. omega arith) (λ s. omega arith) refl;
        more_in =
            kept_twice (λ s. s.in_degree) a b count_in count_out 1 0 t.node_stats (λ s. refl)
              (λ s. omega arith) refl;
        more_out =
            kept_twice (λ s. s.out_degree) a b count_in count_out 0 1 t.node_stats
              (λ s. omega arith) (λ s. refl) refl;
        more_edges = length-append t.edge_values _;
      }

  add_row-Grows :
      (rows : List Row) (comment : CommentSnapshot) (result : Option _) (t : Tally)
      → Grows 1
          (one_if (is_hateful result))
          (one_if (is_some (parent_of rows comment)))
          t
          (add_row show_id rows (comment, result) t)
  unfolding add_row
  add_row-Grows rows comment result t =
      let counted = record t {
        node_stats =
            update_stats (node_key show_id comment) (count_comment comment (is_hateful result))
              t.node_stats;
      } in
      Grows-both 1 (one_if (is_hateful result)) (one_if (is_some (parent_of rows comment))) t
        counted _ (count_comment-Grows (node_key show_id comment) comment (is_hateful result) t)
        (add_edge-Grows (parent_of rows comment) comment (is_hateful result) counted)

  abbrev pub has_parent : List Row → Row → Bool
  has_parent rows row = is_some (parent_of rows row.0)

  add_rows-Grows :
      (rows rest : List Row) (t : Tally)
      → Grows
          (length rest)
          (count (λ row. is_hateful row.1) rest)
          (count (has_parent rows) rest)
          t
          (add_rows show_id rows rest t)
  unfolding add_rows
  add_rows-Grows rows [] t = record {
    more_comments = omega arith;
    more_hate = omega arith;
    more_in = omega arith;
    more_out = omega arith;
    more_edges = omega arith;
  }
  add_rows-Grows rows ((comment, result) ∷ rest) t =
      let next = add_row show_id rows (comment, result) t in
      let first = add_row-Grows rows comment result t in
      let others = add_rows-Grows rows rest next in
      record {
        more_comments = omega (arith, first.more_comments, others.more_comments);
        more_hate = ground (arith, first.more_hate, others.more_hate);
        more_in = ground (arith, first.more_in, others.more_in);
        more_out = ground (arith, first.more_out, others.more_out);
        more_edges = ground (arith, first.more_edges, others.more_edges);
      }

  -- The nodes count every row, and every row with a hateful result, exactly once; the in-degrees and
  -- the out-degrees both add up to the edges, which are the rows whose parent is among the rows.
  pub record IsBalanced (rows : List Row) (t : Tally) : Type 0 where
    pub comments : total_comments t ≡ length rows
    pub hate : total_hate t ≡ count (λ row. is_hateful row.1) rows
    pub edges : length t.edge_values ≡ count (has_parent rows) rows
    pub in_degrees : total_in t ≡ length t.edge_values
    pub out_degrees : total_out t ≡ length t.edge_values

  -- For any comments and results, the network's nodes count every comment and every hateful comment
  -- once, and both degrees add up to the number of the edges, one for each reply whose parent is there.
  pub tally-IsBalanced : (rows : List Row) → IsBalanced rows (tally show_id rows)
  unfolding tally
  tally-IsBalanced rows =
      let all = add_rows-Grows rows rows (record { node_stats = []; edge_values = [] }) in
      record {
        comments = omega (arith, all.more_comments);
        hate = omega (arith, all.more_hate);
        edges = omega (arith, all.more_edges);
        in_degrees = omega (arith, all.more_in, all.more_edges);
        out_degrees = omega (arith, all.more_out, all.more_edges);
      }
