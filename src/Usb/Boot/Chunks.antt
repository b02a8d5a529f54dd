-- ===== src/Usb/Boot/Chunks.antt =====
-- A capture does not depend on how the stream was cut into reads.
use dm_d5102q_rs485_bridge.Prelude.{
  length-append, ◌*◌, ◌≡◌, refl, sym, ap, ◌∙◌, ◌+◌, Text, false, List, [], ◌∷◌, ◌++◌, leb, length,
  arith,
}
use dm_d5102q_rs485_bridge.Exec.{ok, >>=-eq-ok, >>-eq-ok, ok-injective}
use dm_d5102q_rs485_bridge.Usb.Boot.{
  capture_boot, accept_boot, no_capture, Report, Log, Capture, complete, has_line, remainder,
  handle_line, handle_lines, feed, feed_all,
}
use dm_d5102q_rs485_bridge.Usb.Boot.Lines.{
  append_assoc, append_nil, complete_without_line, remainder_without_line, complete-append,
  remainder-append, has_line-remainder,
}

-- The bytes of the reads, one after another
unfoldable pub joined : List Text → Text
joined [] = []
joined (t ∷ ts) = t ++ joined ts

module _ (decode : Text → Text) where
  handle_lines-append :
      (log : Log) (xs ys : List Text) {after : Log}
      → handle_lines decode log xs ≡ ok after
      → handle_lines decode log (xs ++ ys) ≡ handle_lines decode after ys
  unfolding handle_lines
  handle_lines-append log [] ys h = ap (λ l. handle_lines decode l ys) (ok-injective h)
  handle_lines-append log (x ∷ xs) ys h =
      let a = >>=-eq-ok (handle_line decode log x) _ h in
      rw (a.1) (handle_lines-append a.0 xs ys a.2)

  -- What a capture has after the stream `t`
  pub record After (c : Capture) (t : Text) (d : Capture) : Type 0 where
    pub log_is : handle_lines decode c.log (complete (c.buffered ++ t)) ≡ ok d.log
    pub raw_is : d.raw ≡ c.raw ++ t
    pub count_is : d.count ≡ c.count + length t
    pub buffered_is : d.buffered ≡ remainder (c.buffered ++ t)

  fed : (c : Capture) (chunk : Text) {d : Capture} → feed decode c chunk ≡ ok d → After c chunk d
  unfolding feed
  fed c chunk {d} h =
      let a = >>-eq-ok (leb (c.count + length chunk) (1024 * 1024)) _ _ h in
      let b = >>-eq-ok (leb (length (c.buffered ++ chunk)) 8192) _ _ a.1 in
      let e = >>=-eq-ok (handle_lines decode c.log (complete (c.buffered ++ chunk))) _ b.1 in
      moved _ d (ok-injective e.2)
        (record { log_is = e.1; raw_is = refl; count_is = refl; buffered_is = refl })
    where
      moved : (a d : Capture) → a ≡ d → After c chunk a → After c chunk d
      moved a d e x = rw (← e) x

  composed :
      (c : Capture) (s t : Text) {d e : Capture} → After c s d → After d t e → After c (s ++ t) e
  composed c s t {d} {e} x y = record {
    log_is =
        ap (λ r. handle_lines decode c.log (complete r)) (sym (append_assoc c.buffered s t))
        ∙ ap (handle_lines decode c.log) (complete-append (c.buffered ++ s) t)
        ∙ handle_lines-append c.log (complete (c.buffered ++ s)) _ x.log_is
        ∙ ap (λ r. handle_lines decode d.log (complete (r ++ t))) (sym x.buffered_is)
        ∙ y.log_is;
    raw_is = y.raw_is ∙ ap (λ r. r ++ t) x.raw_is ∙ append_assoc c.raw s t;
    count_is = omega (arith, x.count_is, y.count_is, length-append s t);
    buffered_is =
        y.buffered_is
        ∙ ap (λ r. remainder (r ++ t)) x.buffered_is
        ∙ sym (remainder-append (c.buffered ++ s) t)
        ∙ ap remainder (append_assoc c.buffered s t);
  }

  pub feed_all-After :
      (c : Capture) (chunks : List Text) {d : Capture}
      → has_line c.buffered ≡ false
      → feed_all decode c chunks ≡ ok d
      → After c (joined chunks) d
  unfolding feed_all joined handle_lines
  feed_all-After c [] h k = rw (← ok-injective k) (record {
    log_is =
        ap (λ r. handle_lines decode c.log (complete r)) (append_nil c.buffered)
        ∙ ap (handle_lines decode c.log) (complete_without_line c.buffered h)
        ∙ refl;
    raw_is = sym (append_nil c.raw);
    count_is = omega arith;
    buffered_is =
        sym (remainder_without_line c.buffered h) ∙ ap remainder (sym (append_nil c.buffered));
  })
  feed_all-After c (chunk ∷ chunks) {d} h k =
      let a = >>=-eq-ok (feed decode c chunk) _ k in
      let x = fed c chunk a.1 in
      composed c chunk (joined chunks) x (
        feed_all-After a.0 chunks
          (ap has_line x.buffered_is ∙ has_line-remainder (c.buffered ++ chunk)) a.2)

capture_eq :
    (a b : Capture)
    → a.count ≡ b.count
    → a.raw ≡ b.raw
    → a.buffered ≡ b.buffered
    → a.log ≡ b.log
    → a ≡ b
capture_eq a b e f g h = cc

determined :
    (decode : Text → Text) (c : Capture) (t : Text) {d e : Capture}
    → After decode c t d
    → After decode c t e
    → d ≡ e
determined decode c t x y =
    capture_eq _ _ (x.count_is ∙ sym y.count_is) (x.raw_is ∙ sym y.raw_is)
      (x.buffered_is ∙ sym y.buffered_is) (ok-injective (sym x.log_is ∙ y.log_is))

-- Two first boots that are accepted and whose reads join to the same stream, however it was cut,
-- have the same capture (the bytes, the key, the network name, the address, the redacted log, the
-- credentials) and the same report.
pub same_stream_same_capture :
    (decode : Text → Text) (xs ys : List Text) {c d : Capture} {q r : Report}
    → joined xs ≡ joined ys
    → capture_boot decode xs ≡ ok (c, q)
    → capture_boot decode ys ≡ ok (d, r)
    → (c ≡ d) × (q ≡ r)
unfolding capture_boot no_capture has_line
same_stream_same_capture decode xs ys {c} {d} {q} {r} e h k =
    let a = >>=-eq-ok (feed_all decode no_capture xs) _ h in
    let b = >>=-eq-ok (feed_all decode no_capture ys) _ k in
    let a' = >>=-eq-ok (accept_boot a.0) _ a.2 in
    let b' = >>=-eq-ok (accept_boot b.0) _ b.2 in
    let x = feed_all-After decode no_capture xs refl a.1 in
    let y = feed_all-After decode no_capture ys refl b.1 in
    let same_capture = determined decode no_capture (joined xs) x (rw (← e) at y) in
    let same_report = ok-injective (sym a'.1 ∙ ap accept_boot same_capture ∙ b'.1) in
    (
      first (ok-injective a'.2) ∙ same_capture ∙ sym (first (ok-injective b'.2)),
      second (ok-injective a'.2) ∙ same_report ∙ sym (second (ok-injective b'.2)),
    )
  where
    first : {a c : Capture} {b q : Report} → ◌≡◌ {A = Capture × Report} (a, b) (c, q) → c ≡ a
    first e = sym (ap (λ (p : Capture × Report). p.0) e)

    second : {a c : Capture} {b q : Report} → ◌≡◌ {A = Capture × Report} (a, b) (c, q) → q ≡ b
    second e = sym (ap (λ (p : Capture × Report). p.1) e)
