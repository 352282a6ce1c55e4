-- ===== src/FileTree/Adds.antt =====
-- What `AddFile`, `AddSymLink`, `AddHardLink` and `AddDir` of pkg/filetree/filetree.go do to the tree.
use mathlib.Core.Path.{subst}
use stereoscope.Errors.{Result, ok, err, Act, after}
use stereoscope.File.Kinds.{FileType, type_eq, type_eq_iff, regular, sym_link, hard_link, directory}
use stereoscope.File.Paths.{FilePath}
use stereoscope.File.Paths.Canonical.{IsCanonical, normalize_of_IsCanonical}
use stereoscope.File.Refs.{Reference, new_file_reference}
use stereoscope.FileTree.Edit.{
  Files, keep_tree, set_file_node, add_parent_paths, ensure_reference, add_new, add_kind, add_file,
  add_sym_link, add_hard_link, add_dir,
}
use stereoscope.FileTree.Keyed.{IsKeyed, HasNode, node-set_file_node, add_parent_paths-IsKeyed}
use stereoscope.FileTree.Nodes.{
  FileNode, file_node_as_node, file_node, new_dir, new_file, new_sym_link, new_hard_link,
}
use stereoscope.FileTree.Resolve.{plain}
use stereoscope.Go.Maps.{put, get-put}
use stereoscope.Tree
use stereoscope.Tree.{Tree, NodeId}
use stereoscope.FileTree.Parents.{add_parent_paths-StillThere}
use stereoscope.Prelude.{
  ℕ, Option, none, some, ◌≡◌, ◌≢◌, refl, sym, ap, ◌∙◌, byte_string_eq, str_eq, str_eq_iff, arith,
  if◌then◌else◌, if-keeps, Option-keeps,
}

reference_at : Option FileNode → Option Reference
reference_at none = none
reference_at (some n) = n.reference

same_reference :
    (x : Option FileNode) (n m : FileNode) → x ≡ some n → x ≡ some m → n.reference ≡ m.reference
unfolding reference_at
same_reference x n m e e' = ap reference_at (sym e ∙ e')

-- What an addition at `p` has done when it returns the reference `r`.
pub record Added (kind : FileType) (p : FilePath) (r : Reference) (s s' : Files) : Type 0 where
  pub node : FileNode
  pub at : HasNode s'.tree p node
  pub is_kind : node.file_type ≡ kind
  pub refers : node.reference ≡ some r
  pub kept : (q : FilePath) (m : FileNode) → q ≢ p → HasNode s.tree q m → HasNode s'.tree q m
  pub reused :
      (m : FileNode) (old : Reference) → HasNode s.tree p m → m.reference ≡ some old → old ≡ r

-- What an addition at `p` leaves: on an error too, every node that was there.
abbrev pub Outcome : FileType → FilePath → Files → Result Reference × Files → Type 0
Outcome kind p s (ok r, s') = Added kind p r s s'
Outcome kind p s (err e, s') =
    (q : FilePath) (m : FileNode) → HasNode s.tree q m → HasNode s'.tree q m

module _ (kind : FileType) (p : FilePath) (make : Option Reference → FileNode)
    (own : (r : Option Reference) → (make r).real_path ≡ p)
    (is_kind : (r : Option Reference) → (make r).file_type ≡ kind)
    (refers : (r : Option Reference) → (make r).reference ≡ r) (c : IsCanonical p) where
  -- From the files `s`, of which `s1` has every node, the new node is set.
  set_new :
      (s s1 : Files) (r : Reference) (next_id : ℕ)
      → ((m : FileNode) → HasNode s.tree p m → ⊥)
      → IsKeyed s1.tree
      → ((q : FilePath) (m : FileNode) → HasNode s.tree q m → HasNode s1.tree q m)
      → Outcome kind p s (
          after
            (keep_tree (record s1 { next_id = next_id }) (set_file_node (make (some r)) s1.tree))
            (λ _ u. (ok r, u)))
  set_new s s1 r next_id fresh keyed kept = go (set_file_node (make (some r)) s1.tree) refl
    where
      here :
          (t : Tree FileNode)
          → set_file_node (make (some r)) s1.tree ≡ ok t
          → (q : FilePath)
          → Tree.node q t ≡ (if str_eq p q then some (make (some r)) else Tree.node q s1.tree)
      here t e q =
          subst
            (λ o.
              Tree.node q t ≡ (if str_eq o q then some (make (some r)) else Tree.node q s1.tree))
            (own (some r)) (node-set_file_node (make (some r)) s1.tree t q keyed e)

      go :
          (x : Result (Tree FileNode))
          → set_file_node (make (some r)) s1.tree ≡ x
          → Outcome kind p s
              (after (keep_tree (record s1 { next_id = next_id }) x) (λ _ u. (ok r, u)))
      go (err x) e = kept
      go (ok t) e = record {
        node = make (some r);
        at = ground (arith, here t e p, str_eq_iff p p);
        is_kind = is_kind (some r);
        refers = refers (some r);
        kept = λ q m other h. ground (arith, here t e q, str_eq_iff p q, kept q m h);
        reused = λ m old h e'. absurd (fresh m h);
      }

  reference_set :
      (n : FileNode) (r : Reference) (t : Tree FileNode) (q : FilePath)
      → n.real_path ≡ p
      → Tree.node q (record t { nodes = put n.real_path (record n { reference = some r }) t.nodes })
        ≡ (if str_eq p q then some (record n { reference = some r }) else Tree.node q t)
  unfolding Tree.node
  reference_set n r t q e =
      ground (arith, get-put n.real_path q (record n { reference = some r }) t.nodes)

  ensure_reference-Outcome :
      (n : FileNode) (s : Files)
      → IsKeyed s.tree
      → HasNode s.tree p n
      → n.file_type ≡ kind
      → Outcome kind p s (ensure_reference p n s)
  unfolding ensure_reference new_file_reference
  ensure_reference-Outcome n s keyed at k =
      Option-keeps (Outcome kind p s) n.reference _ _
        (λ e. record {
          node = record n { reference = some _ };
          at = reference_set n _ s.tree p (keyed p n at) ∙ (ground (arith, str_eq_iff p p));
          is_kind = k;
          refers = refl;
          kept = λ q m other h.
              reference_set n _ s.tree q (keyed p n at) ∙ (ground (arith, str_eq_iff p q));
          reused = λ m old h e'. cc (sym e ∙ same_reference (Tree.node p s.tree) n m at h ∙ e');
        })
        (λ r e. record {
          node = n;
          at = at;
          is_kind = k;
          refers = e;
          kept = λ q m other h. h;
          reused = λ m old h e'. cc (sym e' ∙ same_reference (Tree.node p s.tree) m n h at ∙ e);
        })

  at_path : (s : Files) (n : FileNode) → file_node (plain s.tree p) ≡ some n → HasNode s.tree p n
  unfolding plain
  at_path s n e = subst (λ k. Tree.node k s.tree ≡ some n) (normalize_of_IsCanonical p c) e

  not_at : (s : Files) (m : FileNode) → file_node (plain s.tree p) ≡ none → HasNode s.tree p m → ⊥
  unfolding plain
  not_at s m e h =
      cc (sym (subst (λ k. Tree.node k s.tree ≡ none) (normalize_of_IsCanonical p c) e) ∙ h)

  parents_kept :
      (s : Files) (x : Result (Unit {0}) × Files) (f : Unit {0} → Act Files Reference)
      → ((q : FilePath) (m : FileNode) → HasNode s.tree q m → HasNode x.1.tree q m)
      → Outcome kind p s (f tt x.1)
      → Outcome kind p s (after x f)
  parents_kept s (ok u, s1) f kept h = h
  parents_kept s (err e, s1) f kept h = kept

  add_kind-Outcome : (s : Files) → IsKeyed s.tree → Outcome kind p s (add_kind kind p make s)
  unfolding add_kind add_new new_file_reference
  add_kind-Outcome s keyed =
      Option-keeps (Outcome kind p s) (file_node (plain s.tree p)) _ _
        (λ e. parents_kept s (add_parent_paths p s) _ kept (
          set_new s (add_parent_paths p s).1 _ _ (λ m. not_at s m e)
            (add_parent_paths-IsKeyed p s keyed) kept))
        (λ n e.
          if-keeps (Outcome kind p s) (type_eq n.file_type kind) _ _
            (λ e'.
              ensure_reference-Outcome n s keyed (at_path s n e)
                ((type_eq_iff n.file_type kind).0 e'))
            (λ e' q m h. h))
    where
      kept :
          (q : FilePath) (m : FileNode)
          → HasNode s.tree q m
          → HasNode (add_parent_paths p s).1.tree q m
      kept q m h = (add_parent_paths-StillThere q m p s c (keyed, h)).1

-- An addition at a canonical path, in a tree with every node under its own path: if it returns a
-- reference, the path has a node of the kind that was asked for, with that reference, and all other
-- nodes stay; if it fails, all nodes stay.
pub adds-Outcome :
    (p link : FilePath) (s : Files)
    → IsCanonical p
    → IsKeyed s.tree
    → Outcome regular p s (add_file p s)
      × Outcome directory p s (add_dir p s)
      × Outcome sym_link p s (add_sym_link p link s)
      × Outcome hard_link p s (add_hard_link p link s)
unfolding add_file add_dir add_sym_link add_hard_link new_file new_dir new_sym_link new_hard_link
adds-Outcome p link s c keyed = (
  add_kind-Outcome regular p (new_file p) (λ r. refl) (λ r. refl) (λ r. refl) c s keyed,
  add_kind-Outcome directory p (new_dir p) (λ r. refl) (λ r. refl) (λ r. refl) c s keyed,
  add_kind-Outcome sym_link p (new_sym_link p link) (λ r. refl) (λ r. refl) (λ r. refl) c s keyed,
  add_kind-Outcome hard_link p (new_hard_link p link) (λ r. refl) (λ r. refl) (λ r. refl) c s keyed,
)
