-- ===== src/Usb/Upgrade/Allowed.antt =====
-- What the redacted log of an upgrade holds.
use dm_d5102q_rs485_bridge.Prelude.{
  sym, In-snoc, ◌≡◌, Text, Bool-cases, inl, inr, Option, none, some, List, [], ◌∷◌, ◌++◌, In, ltb,
  length, ◌+◌, ◌*◌,
}
use dm_d5102q_rs485_bridge.Exec.{Err}
use dm_d5102q_rs485_bridge.Usb.Boot.{classify_boot_line, complete, remainder}
use dm_d5102q_rs485_bridge.Usb.Upgrade.{boot_accepted}
use dm_d5102q_rs485_bridge.Usb.Upgrade.Messages.{IsAllowed, message-IsAllowed}
use dm_d5102q_rs485_bridge.Usb.Upgrade.Capture.{
  UpgradeCapture, new_capture, line_kind, observe_line, observe_lines, boot_metadata, feed,
  feed_all, observe_rest, judge, capture_upgrade,
}

-- Each line is an allowed one.
pub record OnlyMessages (c : UpgradeCapture) : Type 0 where
  pub each : (l : Text) → In l c.redacted → IsAllowed l

moved : {s t : Text} → s ≡ t → IsAllowed s → IsAllowed t
moved e x = rw (← e) x

judged : (c : UpgradeCapture) → OnlyMessages c → OnlyMessages (judge c).0
unfolding judge
judged c x = elim (Bool-cases (boot_accepted c.state)) [ inl e ↦ rw e x | inr e ↦ rw e x ]

module _ (decode : Text → Text) where
  observe_line-OnlyMessages :
      (line : Text) (c : UpgradeCapture)
      → OnlyMessages c
      → OnlyMessages (observe_line decode line c)
  unfolding observe_line boot_metadata line_kind
  observe_line-OnlyMessages line c x = record {
    each = λ l i. elim (In-snoc l c.redacted _ i) [
      | inl j ↦ x.each l j
      | inr e ↦ moved (sym e) (message-IsAllowed (classify_boot_line decode line).0)
    ];
  }

  observe_lines-OnlyMessages :
      (ls : List Text) (c : UpgradeCapture)
      → OnlyMessages c
      → OnlyMessages (observe_lines decode ls c)
  unfolding observe_lines
  observe_lines-OnlyMessages [] c x = x
  observe_lines-OnlyMessages (l ∷ ls) c x =
      observe_lines-OnlyMessages ls (observe_line decode l c) (observe_line-OnlyMessages l c x)

  feed-OnlyMessages :
      (c : UpgradeCapture) (chunk : Text) → OnlyMessages c → OnlyMessages (feed decode c chunk).0
  unfolding feed
  feed-OnlyMessages c chunk x = elim (Bool-cases (ltb (1024 * 1024) (c.count + length chunk))) [
    | inl e ↦ rw e (record { each = x.each })
    | inr e ↦ elim (Bool-cases (ltb 8192 (length (c.buffered ++ chunk)))) [
      | inl f ↦ rw (e, f) (record { each = x.each })
      | inr f ↦
          rw (e, f)
            (observe_lines-OnlyMessages (complete (c.buffered ++ chunk))
              (record c {
                count = c.count + length chunk;
                raw = c.raw ++ chunk;
                buffered = remainder (c.buffered ++ chunk);
              })
              (record { each = x.each }))
    ]
  ]

  feed_all-OnlyMessages :
      (c : UpgradeCapture) (chunks : List Text)
      → OnlyMessages c
      → OnlyMessages (feed_all decode c chunks).0
  unfolding feed_all
  feed_all-OnlyMessages c [] x = x
  feed_all-OnlyMessages c (chunk ∷ chunks) x =
      go (feed decode c chunk).1 (feed_all-OnlyMessages (feed decode c chunk).0 chunks fed)
    where
      fed : OnlyMessages (feed decode c chunk).0
      fed = feed-OnlyMessages c chunk x

      go :
          (o : Option Err)
          → OnlyMessages (feed_all decode (feed decode c chunk).0 chunks).0
          → OnlyMessages
              (elim o as (λ _. UpgradeCapture × Option Err) [
                | none ↦ feed_all decode (feed decode c chunk).0 chunks
                | some e ↦ ((feed decode c chunk).0, some e)
              ]).0
      go none y = y
      go (some e) y = fed

  observe_rest-OnlyMessages :
      (c : UpgradeCapture) → OnlyMessages c → OnlyMessages (observe_rest decode c)
  unfolding observe_rest
  observe_rest-OnlyMessages c x = go c.buffered
    where
      go :
          (b : Text)
          → OnlyMessages
              (elim b as (λ _. UpgradeCapture) [ [] ↦ c | y ∷ s ↦ observe_line decode (y ∷ s) c ])
      go [] = x
      go (y ∷ s) = observe_line-OnlyMessages (y ∷ s) c x

  -- Whatever the device says, however it is cut into reads, and whether the capture of an upgrade
  -- is accepted, is refused or fails at a bound, each line of its redacted log is one of
  -- thirteen fixed texts, or STA_IP= with the decimals of an IPv4 address that is not 0.0.0.0, no
  -- multicast and no loopback address.
  pub capture_upgrade-OnlyMessages :
      (chunks : List Text) → OnlyMessages (capture_upgrade decode chunks).0
  unfolding capture_upgrade new_capture
  capture_upgrade-OnlyMessages chunks = go (feed_all decode new_capture chunks).1
    where
      fed : OnlyMessages (feed_all decode new_capture chunks).0
      fed = feed_all-OnlyMessages new_capture chunks (record { each = λ l i. elim i [ ] })

      go :
          (o : Option Err)
          → OnlyMessages
              (elim o as (λ _. UpgradeCapture × Option Err) [
                | none ↦ judge (observe_rest decode (feed_all decode new_capture chunks).0)
                | some e ↦ ((feed_all decode new_capture chunks).0, some e)
              ]).0
      go none = judged (observe_rest decode _) (observe_rest-OnlyMessages _ fed)
      go (some e) = fed
