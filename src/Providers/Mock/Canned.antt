-- ===== src/Providers/Mock/Canned.antt =====
-- The canned answers of backend/app/providers/llm/mock.py, `_CANNED_RESPONSES` and
-- `_UNKNOWN_FALLBACK`, as JSON.
use magna_cms.Prelude.{◌++◌, codes}
use magna_cms.Models.{Json, number, str, arr, obj, nil, cons, end, member}

abbrev pub blog_post : Json
blog_post = obj (
    member "title" (str (codes "How mocked content makes development cheap and predictable")) (
      member "meta_description"
        (str (
          codes "A worked example of using a mock LLM during local development —"
          ++ codes " deterministic, free, fast, and offline."))
        (member "intro"
          (str (
            codes "Real LLM calls are slow, paid, and non-deterministic. A mock"
            ++ codes " provider gives you the same surface with none of those downsides —"
            ++ codes " the app behaves the same, just without the bill."))
          (member "sections"
            (arr (
              cons
                (obj (
                  member "heading" (str (codes "Why mock at all")) (
                    member "body"
                      (str (
                        codes "You want CI to run without network. You want tests to be stable. You"
                        ++ codes
                            " want your offline demo to keep working when the conference Wi-Fi is"
                        ++ codes " gone. A mock provider buys all of that with no behavioral"
                        ++ codes " compromise."))
                      end)))
                (cons
                  (obj (
                    member "heading" (str (codes "What 'fully implemented' means here")) (
                      member "body"
                        (str (
                          codes "The mock doesn't just no-op. It returns valid JSON in the exact"
                          ++ codes
                              " shape the real provider would, so downstream parsing and rendering"
                          ++ codes " run the same code path. The seam stays honest."))
                        end)))
                  (cons
                    (obj (
                      member "heading" (str (codes "When to flip to the real provider")) (
                        member "body"
                          (str (
                            codes "Set AI_PROVIDER_MODE=openai once you have a funded key and want"
                            ++ codes " real-quality output. Nothing about the app code changes."))
                          end)))
                    nil))))
            (member "conclusion"
              (str (
                codes "Mocks aren't a fallback — they're a peer implementation. Treat them"
                ++ codes " as such and your local development loop stays tight."))
              (member "suggested_tags"
                (arr (
                  cons (str (codes "mock"))
                    (cons (str (codes "developer-experience")) (cons (str (codes "ai")) nil))))
                end))))))

abbrev pub linkedin_post : Json
linkedin_post = obj (
    member "hook" (str (codes "The cheapest LLM call is the one you don't make.")) (
      member "body"
        (str (
          codes "Three reasons we ship a fully-functional mock provider alongside the"
          ++ codes " real one:\n\n1. Tests run offline.\n2. CI bills nothing.\n3. Demos"
          ++ codes " survive bad Wi-Fi.\n\nSame interface. Same JSON shapes. No real model"
          ++ codes " calls. The feature parity is the point."))
        (member "cta"
          (str (
            codes "What's the cheapest provider in your stack — and is it really a"
            ++ codes " mock, or a half-implementation?"))
          (member "hashtags"
            (arr (
              cons (str (codes "#engineering"))
                (cons (str (codes "#ai")) (cons (str (codes "#developerexperience")) nil))))
            end))))

abbrev pub ad_copy : Json
ad_copy = obj (
    member "variants"
      (arr (
        cons
          (obj (
            member "format" (str (codes "short")) (
              member "angle" (str (codes "curiosity")) (
                member "headline" (str (codes "What if it worked offline?")) (
                  member "body" (str (codes "Mock-mode AI for every demo."))
                    (member "cta" (str (codes "Try it")) end))))))
          (cons
            (obj (
              member "format" (str (codes "medium")) (
                member "angle" (str (codes "social_proof")) (
                  member "headline" (str (codes "Tested on every commit, billed on none")) (
                    member "body"
                      (str (
                        codes "CI runs every test against a fully-implemented mock provider — same"
                        ++ codes " JSON shapes as production."))
                      (member "cta" (str (codes "See the setup")) end))))))
            (cons
              (obj (
                member "format" (str (codes "long")) (
                  member "angle" (str (codes "transformation")) (
                    member "headline"
                      (str (codes "Stop paying for tests to pass — wire a real mock"))
                      (member "body"
                        (str (
                          codes "Replace flaky integration tests against live LLMs with a"
                          ++ codes " deterministic in-process provider. Same surface as OpenAI,"
                          ++ codes
                              " returning valid JSON per content type. Your CI gets faster and your"
                          ++ codes " bill drops."))
                        (member "cta" (str (codes "Read the implementation")) end))))))
              nil))))
      end)

abbrev pub email : Json
email = obj (
    member "subject" (str (codes "Quick note about your local-dev loop")) (
      member "preview_text" (str (codes "Three changes that make AI features cheap to iterate on."))
        (member "greeting" (str (codes "Hi there,")) (
          member "body"
            (str (
              codes "If you're building anything on top of an LLM, your local-dev loop is"
              ++ codes " doing more work than it needs to.\n\nWe've been running with a mock"
              ++ codes " provider in CI and on demo machines for a while. It returns the"
              ++ codes " same JSON shapes as the real model, just deterministically. Tests"
              ++ codes " are faster, demos are reliable, and the bill is zero.\n\nWorth trying"
              ++ codes " if you haven't already."))
            (member "cta_text" (str (codes "Show me the pattern"))
              (member "sign_off" (str (codes "— The MagnaCMS team")) end))))))

abbrev pub image_prompt : Json
image_prompt = obj (
    member "prompt"
      (str (
        codes "A clean, slightly isometric illustration of a developer workstation."
        ++ codes " Two monitors, one showing a JSON response, the other a green test"
        ++ codes " suite. Soft daylight from the left, cool blue-grey palette with"
        ++ codes " warm orange accents on coffee mug and desk lamp. No identifiable"
        ++ codes " person, no logos, no on-screen text."))
      (member "negative_prompt" (str (codes ""))
        (member "style_summary" (str (codes "isometric illustration, soft daylight")) end)))

abbrev pub improver_analysis : Json
improver_analysis = obj (
    member "issues"
      (arr (
        cons (str (codes "Buries the hook past the second sentence.")) (
          cons (str (codes "Uses banned phrases the brand voice forbids."))
            (cons (str (codes "Passive voice in the call to action weakens the ask.")) nil))))
      (member "planned_changes"
        (arr (
          cons (str (codes "Move the strongest concrete claim to the opening line.")) (
            cons (str (codes "Replace banned phrases with concrete brand-voice substitutes.")) (
              cons (str (codes "Rewrite the CTA in active voice with a verb-first imperative."))
                nil))))
        end))

abbrev pub improver_rewrite : Json
improver_rewrite = obj (
    member "improved_text"
      (str (
        codes "Three engineers shipped a feature this week using the mocked"
        ++ codes " provider end-to-end. No real LLM call, no flaky tests, no surprise"
        ++ codes " bill. The seam survives contact with production. Pull the branch"
        ++ codes " and run the suite — you'll see."))
      (member "explanation"
        (arr (
          cons
            (str (
              codes "Led with the concrete outcome (three engineers, this week) instead"
              ++ codes " of generic claims."))
            (cons (str (codes "Cut the banned phrase and replaced with a specific verb.")) (
              cons
                (str (
                  codes "Reworked the CTA into an imperative — 'Pull the branch' — rather"
                  ++ codes " than a passive invitation."))
                nil))))
        (member "changes_summary"
          (obj (
            member "tone_shift" (str (codes "softened_to_direct")) (
              member "length_change_pct" (number (codes "-32.0")) (
                member "key_additions"
                  (arr (
                    cons (str (codes "concrete numbers"))
                      (cons (str (codes "imperative CTA")) nil)))
                  (member "key_removals"
                    (arr (cons (str (codes "banned phrase 'in today's fast-paced world'")) nil))
                    end)))))
          end)))

abbrev pub unknown_fallback : Json
unknown_fallback = obj (
    member "_note"
      (str (
        codes "MockLLMProvider received an unknown content_type. Add a canned"
        ++ codes " response."))
      end)
