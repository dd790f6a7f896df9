-- ===== src/Catalogue/Entries.antt =====
-- `UA_PRESETS` and `SCRAPY_SETTINGS`, entry by entry.
use scrapydweb.Base.{Text, text, List, [], ◌∷◌}
use scrapydweb.Catalogue.{SettingType, bool, int, float, str, enum, Preset, ScrapySettingDef}

abbrev preset : Text → Text → Preset
preset label value = record { label = label; value = value }

-- an entry with neither options nor presets
abbrev plain : Text → SettingType → Text → Text → ScrapySettingDef
plain key type default description = record {
  key = key;
  type = type;
  default = default;
  description = description;
  options = [];
  presets = [];
}

unfoldable pub ua_presets : List Preset
ua_presets =
    preset (text "Chrome") (
      text
        "Mozilla/5.0 (Windows NT 10.0; WOW64) AppleWebKit/537.36 (KHTML, like Gecko) Chrome/72.0.3626.109 Safari/537.36")
    ∷ preset (text "iPhone") (
        text
          "Mozilla/5.0 (iPhone; CPU iPhone OS 11_0 like Mac OS X) AppleWebKit/604.1.38 (KHTML, like Gecko) Version/11.0 Mobile/15A372 Safari/604.1")
    ∷ preset (text "iPad") (
        text
          "Mozilla/5.0 (iPad; CPU OS 12_1_4 like Mac OS X) AppleWebKit/605.1.15 (KHTML, like Gecko) Version/12.0 Mobile/15E148 Safari/604.1")
    ∷ preset (text "Android") (
        text
          "Mozilla/5.0 (Linux; Android 8.0.0; Pixel 2 XL Build/OPD1.170816.004) AppleWebKit/537.36 (KHTML, like Gecko) Chrome/72.0.3626.109 Mobile Safari/537.36")
    ∷ []

unfoldable pub scrapy_settings : List ScrapySettingDef
scrapy_settings =
    record (plain (text "USER_AGENT") str (text "Scrapy/x.y")
      (text "User-Agent header for requests")) { presets = ua_presets }
    ∷ plain (text "ROBOTSTXT_OBEY") bool (text "True") (text "Respect robots.txt policies")
    ∷ plain (text "COOKIES_ENABLED") bool (text "True") (text "Enable the cookies middleware")
    ∷ plain (text "COOKIES_DEBUG") bool (text "False") (text "Log all cookies sent/received")
    ∷ plain (text "DEPTH_LIMIT") int (text "0") (text "Max crawl depth (0 = no limit)")
    ∷ plain (text "URLLENGTH_LIMIT") int (text "2083") (text "Max URL length to crawl")
    ∷ plain (text "REFERER_ENABLED") bool (text "True") (text "Populate the Referer header")
    ∷ plain (text "AJAXCRAWL_ENABLED") bool (text "False") (text "Discover AJAX-crawlable pages")
    ∷ plain (text "CONCURRENT_REQUESTS") int (text "16") (text "Max concurrent requests (global)")
    ∷ plain (text "CONCURRENT_REQUESTS_PER_DOMAIN") int (text "8")
        (text "Max concurrent requests per domain")
    ∷ plain (text "CONCURRENT_REQUESTS_PER_IP") int (text "0")
        (text "Max concurrent requests per IP (0 = per-domain rules)")
    ∷ plain (text "CONCURRENT_ITEMS") int (text "100")
        (text "Max items processed concurrently in pipelines")
    ∷ plain (text "DOWNLOAD_DELAY") float (text "0")
        (text "Seconds to wait between requests to the same site")
    ∷ plain (text "RANDOMIZE_DOWNLOAD_DELAY") bool (text "True")
        (text "Randomize delay (0.5–1.5 × DOWNLOAD_DELAY)")
    ∷ plain (text "AUTOTHROTTLE_ENABLED") bool (text "False")
        (text "Auto-adjust delay from server load")
    ∷ plain (text "AUTOTHROTTLE_START_DELAY") float (text "5.0")
        (text "Initial download delay for AutoThrottle")
    ∷ plain (text "AUTOTHROTTLE_MAX_DELAY") float (text "60.0")
        (text "Max download delay under high latency")
    ∷ plain (text "AUTOTHROTTLE_TARGET_CONCURRENCY") float (text "1.0")
        (text "Average parallel requests per remote site")
    ∷ plain (text "AUTOTHROTTLE_DEBUG") bool (text "False")
        (text "Log every AutoThrottle adjustment")
    ∷ plain (text "DOWNLOAD_TIMEOUT") int (text "180") (text "Downloader timeout in seconds")
    ∷ plain (text "DOWNLOAD_MAXSIZE") int (text "1073741824")
        (text "Max response size in bytes (0 = no limit)")
    ∷ plain (text "DOWNLOAD_FAIL_ON_DATALOSS") bool (text "True")
        (text "Fail on broken/truncated responses")
    ∷ plain (text "DNS_TIMEOUT") int (text "60") (text "DNS query timeout in seconds")
    ∷ plain (text "RETRY_ENABLED") bool (text "True") (text "Retry failed requests")
    ∷ plain (text "RETRY_TIMES") int (text "2")
        (text "Max retries per request (besides the first attempt)")
    ∷ plain (text "RETRY_PRIORITY_ADJUST") int (text "-1")
        (text "Priority shift applied to retried requests")
    ∷ plain (text "REDIRECT_ENABLED") bool (text "True") (text "Follow HTTP redirects")
    ∷ plain (text "REDIRECT_MAX_TIMES") int (text "20") (text "Max redirects per request")
    ∷ plain (text "HTTPCACHE_ENABLED") bool (text "False")
        (text "Cache responses on disk (HTTP cache middleware)")
    ∷ plain (text "CLOSESPIDER_TIMEOUT") int (text "0")
        (text "Close the spider after N seconds (0 = never)")
    ∷ plain (text "CLOSESPIDER_PAGECOUNT") int (text "0") (text "Close after N responses crawled")
    ∷ plain (text "CLOSESPIDER_ITEMCOUNT") int (text "0") (text "Close after N items scraped")
    ∷ plain (text "CLOSESPIDER_ERRORCOUNT") int (text "0") (text "Close after N errors")
    ∷ record (plain (text "LOG_LEVEL") enum (text "DEBUG") (text "Minimum log severity")) {
      options = text "DEBUG" ∷ text "INFO" ∷ text "WARNING" ∷ text "ERROR" ∷ text "CRITICAL" ∷ [];
    }
    ∷ plain (text "LOGSTATS_INTERVAL") float (text "60.0")
        (text "Seconds between crawl-stats log lines")
    ∷ plain (text "FEED_EXPORT_ENCODING") str (text "utf-8 (json: ascii)")
        (text "Encoding for exported feeds")
    ∷ plain (text "JOBDIR") str (text "") (text "Directory for pausing/resuming crawl state")
    ∷ plain (text "MEMUSAGE_LIMIT_MB") int (text "0")
        (text "Kill the spider above this RSS memory (MB, 0 = off)")
    ∷ plain (text "REACTOR_THREADPOOL_MAXSIZE") int (text "10")
        (text "Twisted thread-pool size (DNS, IO)")
    ∷ plain (text "TELNETCONSOLE_ENABLED") bool (text "True")
        (text "Enable the telnet debug console")
    ∷ []
