-- ===== src/Cli/Ids/Message.antt =====
-- The bytes that the identifiers are hashed from.
use sto.Prelude.{
  ℕ, ◌^◌, ◌<◌, ◌≡◌, refl, sym, ap, ◌∙◌, Option, none, some, List, [], ◌++◌, arith, length,
  length-append, append-eq_left, append-eq_right, append_assoc, append-nil,
}
use sto.Words.{to_be_bytes, to_be_bytes-injective, length-to_be_bytes}
use sto.Text.{as_bytes}
use sto.Text.Bytes.{as_bytes-append}
use sto.Cli.Ids.{
  Hasher, HasherLaws, to_id, append_parent, append_file, append_line, hash_node, hash_data,
}
use sto.Defs.{Text, StackNode, StackNodeData}

abbrev pub parent_bytes : Option ℕ → List ℕ
parent_bytes none = []
parent_bytes (some parent_id) = to_be_bytes 8 parent_id

-- All that is appended for a node, in order.
abbrev pub node_message : StackNode → List ℕ
node_message node =
    parent_bytes node.parent_id
    ++ (to_be_bytes 8 node.stack_node_data_id ++ to_be_bytes 8 node.executable_id)

abbrev pub file_bytes : Option Text → List ℕ
file_bytes none = []
file_bytes (some file) = as_bytes file

abbrev pub line_bytes : Option ℕ → List ℕ
line_bytes none = []
line_bytes (some line_number) = to_be_bytes 4 line_number

-- All that is appended for a piece of node data, in order.
abbrev pub data_message : StackNodeData → List ℕ
data_message node = as_bytes node.symbol ++ (file_bytes node.file ++ line_bytes node.line_number)

-- The identifiers of a node are words.
pub record IsNode (n : StackNode) : Type 0 where
  pub parent_id : (p : ℕ) → n.parent_id ≡ some p → p < 2 ^ 64
  pub stack_node_data_id : n.stack_node_data_id < 2 ^ 64
  pub executable_id : n.executable_id < 2 ^ 64

-- Two nodes with the same parent, data and executable.
abbrev pub SameFrame : StackNode → StackNode → Type 0
SameFrame m n =
    (m.parent_id ≡ n.parent_id)
    × (m.stack_node_data_id ≡ n.stack_node_data_id)
    × (m.executable_id ≡ n.executable_id)

length-tail :
    (n : StackNode)
    → length (to_be_bytes 8 n.stack_node_data_id ++ to_be_bytes 8 n.executable_id) ≡ 16
length-tail n = omega (
  arith,
  length-append (to_be_bytes 8 n.stack_node_data_id) (to_be_bytes 8 n.executable_id),
  length-to_be_bytes 8 n.stack_node_data_id,
  length-to_be_bytes 8 n.executable_id,
)

tail-injective :
    (m n : StackNode)
    → IsNode m
    → IsNode n
    → to_be_bytes 8 m.stack_node_data_id ++ to_be_bytes 8 m.executable_id
      ≡ to_be_bytes 8 n.stack_node_data_id ++ to_be_bytes 8 n.executable_id
    → (m.stack_node_data_id ≡ n.stack_node_data_id) × (m.executable_id ≡ n.executable_id)
tail-injective m n hm hn e =
    let width : length (to_be_bytes 8 m.stack_node_data_id)
        ≡ length (to_be_bytes 8 n.stack_node_data_id) =
      length-to_be_bytes 8 m.stack_node_data_id ∙ sym (length-to_be_bytes 8 n.stack_node_data_id) in
    (
      to_be_bytes-injective 8 _ _ hm.stack_node_data_id hn.stack_node_data_id
          (append-eq_left _ _ _ _ width e),
      to_be_bytes-injective 8 _ _ hm.executable_id hn.executable_id
          (append-eq_right _ _ _ _ width e),
    )

parts-injective :
    (m n : StackNode) (p q : Option ℕ)
    → m.parent_id ≡ p
    → n.parent_id ≡ q
    → IsNode m
    → IsNode n
    → parent_bytes p ++ (to_be_bytes 8 m.stack_node_data_id ++ to_be_bytes 8 m.executable_id)
      ≡ parent_bytes q ++ (to_be_bytes 8 n.stack_node_data_id ++ to_be_bytes 8 n.executable_id)
    → (p ≡ q) × (m.stack_node_data_id ≡ n.stack_node_data_id) × (m.executable_id ≡ n.executable_id)
parts-injective m n none none ep eq hm hn e =
    let (data_id, exe_id) = tail-injective m n hm hn e in (refl, data_id, exe_id)
parts-injective m n (some p) none ep eq hm hn e = absurd (
    omega (
      arith,
      ap length e,
      length-tail m,
      length-tail n,
      length-to_be_bytes 8 p,
      length-append (to_be_bytes 8 p)
          (to_be_bytes 8 m.stack_node_data_id ++ to_be_bytes 8 m.executable_id),
    ))
parts-injective m n none (some q) ep eq hm hn e = absurd (
    omega (
      arith,
      ap length e,
      length-tail m,
      length-tail n,
      length-to_be_bytes 8 q,
      length-append (to_be_bytes 8 q)
          (to_be_bytes 8 n.stack_node_data_id ++ to_be_bytes 8 n.executable_id),
    ))
parts-injective m n (some p) (some q) ep eq hm hn e =
    let width : length (to_be_bytes 8 p) ≡ length (to_be_bytes 8 q) =
      length-to_be_bytes 8 p ∙ sym (length-to_be_bytes 8 q) in
    let parent : p ≡ q =
      to_be_bytes-injective 8 p q (hm.parent_id p ep) (hn.parent_id q eq)
        (append-eq_left _ _ _ _ width e) in
    let (data_id, exe_id) = tail-injective m n hm hn (append-eq_right _ _ _ _ width e) in
    (ap some parent, data_id, exe_id)

-- Two nodes that are hashed from the same bytes have the same parent, data and executable.
pub node_message-injective :
    (m n : StackNode) → IsNode m → IsNode n → node_message m ≡ node_message n → SameFrame m n
node_message-injective m n hm hn e = parts-injective m n m.parent_id n.parent_id refl refl hm hn e

module _ (h : Hasher) (laws : HasherLaws h) where
  append_parent-bytes :
      (p : Option ℕ) (bs : List ℕ)
      → h.append bs (append_parent h p h.new) ≡ h.append (parent_bytes p ++ bs) h.new
  unfolding append_parent
  append_parent-bytes none bs = refl
  append_parent-bytes (some p) bs = laws.append_append (to_be_bytes 8 p) bs h.new

  -- The identifier of a node is the digest of its message, made positive.
  pub hash_node-message :
      (n : StackNode) → hash_node h n ≡ to_id h (h.append (node_message n) h.new)
  unfolding hash_node
  hash_node-message n = ap (to_id h) (
      ap (h.append (to_be_bytes 8 n.executable_id))
        (append_parent-bytes n.parent_id (to_be_bytes 8 n.stack_node_data_id))
      ∙ laws.append_append (parent_bytes n.parent_id ++ to_be_bytes 8 n.stack_node_data_id)
          (to_be_bytes 8 n.executable_id) h.new
      ∙ ap (λ (bs : List ℕ). h.append bs h.new)
          (append_assoc (parent_bytes n.parent_id) (to_be_bytes 8 n.stack_node_data_id)
            (to_be_bytes 8 n.executable_id)))

  -- If the digest and `abs` do not collide on their messages, nodes with the same identifier have
  -- the same parent, data and executable: two call paths never share a node by accident of the
  -- encoding.
  pub hash_node-SameFrame :
      (m n : StackNode)
      → IsNode m
      → IsNode n
      → (to_id h (h.append (node_message m) h.new) ≡ to_id h (h.append (node_message n) h.new)
          → node_message m ≡ node_message n)
      → hash_node h m ≡ hash_node h n
      → SameFrame m n
  hash_node-SameFrame m n hm hn collision_free e =
      node_message-injective m n hm hn
        (collision_free (sym (hash_node-message m) ∙ e ∙ hash_node-message n))

  append_file-bytes :
      (f : Option Text) (bs : List ℕ)
      → append_file h f (h.append bs h.new) ≡ h.append (bs ++ file_bytes f) h.new
  unfolding append_file
  append_file-bytes none bs = ap (λ (b : List ℕ). h.append b h.new) (sym (append-nil bs))
  append_file-bytes (some f) bs = laws.append_append bs (as_bytes f) h.new

  append_line-bytes :
      (l : Option ℕ) (bs : List ℕ)
      → append_line h l (h.append bs h.new) ≡ h.append (bs ++ line_bytes l) h.new
  unfolding append_line
  append_line-bytes none bs = ap (λ (b : List ℕ). h.append b h.new) (sym (append-nil bs))
  append_line-bytes (some l) bs = laws.append_append bs (to_be_bytes 4 l) h.new

  -- The identifier of node data is the digest of its message, made positive.
  pub hash_data-message :
      (n : StackNodeData) → hash_data h n ≡ to_id h (h.append (data_message n) h.new)
  unfolding hash_data
  hash_data-message n = ap (to_id h) (
      ap (append_line h n.line_number) (append_file-bytes n.file (as_bytes n.symbol))
      ∙ append_line-bytes n.line_number (as_bytes n.symbol ++ file_bytes n.file)
      ∙ ap (λ (bs : List ℕ). h.append bs h.new)
          (append_assoc (as_bytes n.symbol) (file_bytes n.file) (line_bytes n.line_number)))

  -- Nothing separates the symbol from the file in what is hashed: moving text from the end of the
  -- symbol to the front of the file gives other node data with the same identifier, whatever the
  -- hash function.
  pub hash_data-ambiguous :
      (symbol moved file : Text) (line : Option ℕ) (id : ℕ)
      → hash_data h
          (record { id = id; symbol = symbol ++ moved; file = some file; line_number = line })
        ≡ hash_data h
            (record { id = id; symbol = symbol; file = some (moved ++ file); line_number = line })
  hash_data-ambiguous symbol moved file line id =
      hash_data-message _
      ∙ ap (λ (bs : List ℕ). to_id h (h.append bs h.new))
          (rw (as_bytes-append symbol moved, as_bytes-append moved file)
            (rw (append_assoc (as_bytes symbol) (as_bytes moved) (as_bytes file ++ line_bytes line))
              (rw (append_assoc (as_bytes moved) (as_bytes file) (line_bytes line)))))
      ∙ sym (hash_data-message _)
